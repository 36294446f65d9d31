-- ===== src/Credential/Tests.antt =====
-- The theorems on credentials at concrete values.
use netty_tcnative.Base.{ℕ, ◌≡◌, List, [], ◌∷◌, Bool, true, false, Option, none, some}
use netty_tcnative.Base.Int.{ℤ, pos, negsuc}
use netty_tcnative.Base.Jni.{thrown, unsupported_operation}
use netty_tcnative.Callbacks.{openssl, boringssl}
use netty_tcnative.Credential.{
  ocsp_response, Credential, CredentialAnswers, with_field, is_empty, set_bytes,
}
use netty_tcnative.Credential.Setters.{Sets, set_bytes-Sets}

abbrev answers : CredentialAnswers
answers = record { get_elements = true; new_buffer = true; malloc = true; set1 = true }

abbrev fresh : Credential
fresh = record {
  bytes = λ f. none;
  private_key = none;
  cert_chain = [];
  signing_prefs = [];
  must_match_issuer = false;
  refs = 1;
  buffers = 0;
  allocations = 0;
  pinned = 0;
}

abbrev response : List ℕ
response = 1 ∷ 2 ∷ []

abbrev prefs : List ℤ
prefs = pos 2052 ∷ pos 65537 ∷ negsuc 0 ∷ []

set_bytes-Sets_example :
    Sets
      (is_empty response)
      answers
      fresh
      (with_field ocsp_response response fresh)
      (set_bytes boringssl ocsp_response false (some response) answers fresh)
    × ((null_cred : Bool) (array : Option (List ℕ))
        → set_bytes openssl ocsp_response null_cred array answers fresh
          ≡ (thrown unsupported_operation, fresh))
set_bytes-Sets_example = set_bytes-Sets ocsp_response response answers fresh
