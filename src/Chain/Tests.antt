-- ===== src/Chain/Tests.antt =====
-- The theorems on chains at concrete certificates, and runs of the loaders.
use netty_tcnative.Base.{
  ℕ, ◌≡◌, refl, List, [], ◌∷◌, ◌++◌, true, false, not, length, ◌==◌, if◌then◌else◌,
}
use netty_tcnative.Base.Int.{pos}
use netty_tcnative.Callbacks.{openssl, boringssl}
use netty_tcnative.Chain.{
  PemError, no_start_line, other, ChainState, ChainAnswers, in_extra_chain, in_ssl_chain,
  in_client_cas, minus_one, setup_certs, ssl_use_certificate_chain_bio, ctx_use_client_ca_bio,
  skip_first, load_rest, finish_load, load_certs, check_errors,
}
use netty_tcnative.Chain.Result.{Loads, value, all_accepted, setup_certs-extra_chain}
use netty_tcnative.Chain.Names.{named, use_client_ca_bio-libraries}

-- The library refuses certificate 3.
abbrev answers : ChainAnswers
answers = record {
  add = λ x. not (x == 3);
  new_stack = true;
  encode_name = λ x. not (x == 3);
  new_buffer = λ x. true;
  push = λ x. true;
}

-- An SSL_CTX with a client CA, an extra chain, and the given errors in the queue.
abbrev state_of : List PemError → ChainState
state_of errors = record {
  errors = errors;
  client_cas = 7 ∷ [];
  extra_chain = 8 ∷ [];
  ssl_chain = 9 ∷ [];
  live_x509 = 0;
  live_bios = 0;
  live_stacks = 0;
  live_buffers = 0;
  live_encodings = 0;
}

abbrev chain : List ℕ
chain = 1 ∷ 2 ∷ 3 ∷ 4 ∷ []

abbrev pair : List ℕ
pair = 1 ∷ 2 ∷ []

setup_certs-extra_chain_example :
    Loads in_extra_chain answers.add pair other 0
      (record (state_of (no_start_line ∷ [])) { extra_chain = [] })
      (setup_certs openssl false false answers pair other (state_of (no_start_line ∷ [])))
    × Loads in_extra_chain answers.add pair other 0
        (record (state_of (no_start_line ∷ [])) { extra_chain = [] })
        (setup_certs openssl true false answers (5 ∷ pair) other (state_of (no_start_line ∷ [])))
    × Loads in_ssl_chain answers.add pair other 0
        (state_of (no_start_line ∷ []))
        (ssl_use_certificate_chain_bio false answers pair other (state_of (no_start_line ∷ [])))
    × ((setup_certs openssl true false answers [] other (state_of (no_start_line ∷ []))).0
        ≡ minus_one)
setup_certs-extra_chain_example =
    setup_certs-extra_chain answers 5 pair other (state_of (no_start_line ∷ []))

use_client_ca_bio-libraries_example :
    Loads in_client_cas answers.add chain no_start_line 0
      (state_of [])
      (ctx_use_client_ca_bio openssl answers chain no_start_line (state_of []))
    × ((ctx_use_client_ca_bio boringssl answers chain no_start_line (state_of [])).0
        ≡ value (all_accepted (named answers) chain) ([] ++ (no_start_line ∷ [])) (length chain))
    × ((ctx_use_client_ca_bio boringssl answers chain no_start_line (state_of [])).1.client_cas
        ≡ (if all_accepted (named answers) chain then chain else 7 ∷ []))
use_client_ca_bio-libraries_example =
    use_client_ca_bio-libraries answers chain no_start_line (state_of [])

-- A stale error at the head of the queue hides the one that ended the input.
stale_error :
    (setup_certs openssl false false answers pair other (state_of (no_start_line ∷ []))).0 ≡ pos 2
unfolding setup_certs skip_first load_rest finish_load load_certs check_errors
stale_error = refl
