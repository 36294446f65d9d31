-- ===== src/Material/Tests.antt =====
-- The theorems on key material at concrete chains.
use netty_tcnative.Base.{ℕ, ◌≡◌, ◌⊎◌, refl, List, [], ◌∷◌, true, false, none, some, not, ◌==◌}
use netty_tcnative.Base.Jni.{returned, thrown, exception}
use netty_tcnative.Callbacks.{openssl, boringssl}
use netty_tcnative.Chain.Result.{all_accepted}
use netty_tcnative.Material.{
  ParseState, ParseAnswers, Presented, MaterialAnswers, Done, with_leaf, set_key_material,
}
use netty_tcnative.Material.Client.{
  ClientMaterial, ClientAnswers, HandsOver, set_key_material_client_side,
  set_key_material_client_side-HandsOver,
}
use netty_tcnative.Material.Installed.{
  kept_key, takes, takes_key, Presents, set_key_material-Presents, set_key_material-refused,
}

abbrev parse_answers : ParseAnswers
parse_answers = record { new_stack = true; new_buffer = λ x. true; push = λ x. true }

abbrev start : ParseState
start = record { errors = []; stacks = 1; certs = 3; names = 0; headers = 0; datas = 0 }

abbrev chain : List ℕ
chain = 4 ∷ 5 ∷ 6 ∷ []

-- OpenSSL takes every first certificate but `bad`.
abbrev answers : ℕ → MaterialAnswers
answers bad = record {
  use_certificate = λ x. not (x == bad);
  keeps_key = λ x. false;
  use_private_key = true;
  check_private_key = true;
  clear_chain = true;
  add1 = λ x. true;
  malloc = true;
  set_chain_and_key = true;
}

abbrev before : Presented
before = record { leaf = some 1; key = some 2; chain = 3 ∷ []; arrays = 0 }

set_key_material-Presents_example :
    (((set_key_material openssl false (some chain) (some 7) (answers 0) before).0
        ≡ thrown exception)
      ⊎ ((x : ℕ) × (xs : List ℕ) × (chain ≡ x ∷ xs)
          × ((set_key_material openssl false (some chain) (some 7) (answers 0) before).0
              ≡ returned tt)
          × Presents
              (set_key_material openssl false (some chain) (some 7) (answers 0) before)
              (some x)
              (kept_key (some 7) (with_leaf (answers 0) x before))
              xs))
    × ((◌≡◌ {A = Done}
          (set_key_material boringssl false (some chain) (some 7) (answers 0) before)
          (thrown exception, before))
        ⊎ ((x : ℕ) × (xs : List ℕ) × (chain ≡ x ∷ xs)
            × (◌≡◌ {A = Done}
                (set_key_material boringssl false (some chain) (some 7) (answers 0) before)
                (returned tt, record before { leaf = some x; key = some 7; chain = xs }))))
    × ((set_key_material openssl false (some chain) (some 7) (answers 0) before).0 ≡ returned tt)
    × ((set_key_material boringssl false (some chain) (some 7) (answers 0) before).0 ≡ returned tt)
unfolding takes takes_key all_accepted
set_key_material-Presents_example = set_key_material-Presents (answers 0) chain (some 7) before

set_key_material-refused_example :
    ◌≡◌ {A = Done}
      (set_key_material openssl false (some (4 ∷ 5 ∷ 6 ∷ [])) (some 7) (answers 4) before)
      (thrown exception, record before { key = some 7; chain = 5 ∷ 6 ∷ [] })
set_key_material-refused_example =
    set_key_material-refused (answers 4) 4 7 (5 ∷ 6 ∷ []) before refl refl refl refl (λ y. refl)

abbrev client_answers : ClientAnswers
client_answers = record { add1 = λ y. not (y == 6); up_ref_cert = true; up_ref_key = true }

abbrev client_before : ClientMaterial
client_before = record {
  chain = 9 ∷ [];
  cert_out = none;
  key_out = none;
  cert_refs = 1;
  key_refs = 0;
}

set_key_material_client_side-HandsOver_example : HandsOver true 4 7 (5 ∷ 8 ∷ []) client_before (
    set_key_material_client_side openssl false
      (some (4 ∷ 5 ∷ 8 ∷ []))
      (some 7)
      client_answers
      client_before)
unfolding all_accepted
set_key_material_client_side-HandsOver_example =
    set_key_material_client_side-HandsOver client_answers 4 7 (5 ∷ 8 ∷ []) client_before refl refl
      (refl, refl)
