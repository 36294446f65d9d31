-- ===== src/Dh/Tests.antt =====
-- The theorems on Diffie-Hellman parameters for a table that is filled without a failure.
use netty_tcnative.Base.{◌≡◌, refl, true, false, none}
use netty_tcnative.Dh.Table.{
  DhHeap, DhAnswers, TempKeys, tmp_keys_init, tmp_key_init_dh, dh_get_tmp_param, get_dh, fill_dh,
  prime_of, callback_tmp_dh,
}
use netty_tcnative.Dh.Table.Sizes.{Serves, Registers, bits_for, tmp_keys_init-Serves}

abbrev answers : DhAnswers
answers = record { dh_new = true; prime_made = true; generator_made = true; set0_pqg = true }

abbrev start : TempKeys × DhHeap
start = (λ i. none, record { dhs = 0; bignums = 0 })

no_failure : (tmp_keys_init (λ idx. answers) start).0 ≡ false
unfolding tmp_keys_init tmp_key_init_dh dh_get_tmp_param get_dh fill_dh prime_of
no_failure = refl

tmp_keys_init-Serves_example :
    Serves (callback_tmp_dh (tmp_keys_init (λ idx. answers) start).1 3072) (bits_for 3072)
    × Registers (tmp_keys_init (λ idx. answers) start).1 3072
tmp_keys_init-Serves_example = tmp_keys_init-Serves (λ idx. answers) start 3072 no_failure
