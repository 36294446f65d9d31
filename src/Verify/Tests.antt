-- ===== src/Verify/Tests.antt =====
-- The theorems on certificate verification at concrete configurations and chains.
use netty_tcnative.Base.{ℕ, ◌≡◌, ◌⊎◌, ◌↔◌, refl, true, false, Option, none, some, List, [], ◌∷◌}
use netty_tcnative.Base.Int.{ℤ, pos}
use netty_tcnative.Verify.{
  VerifyConfig, boringssl, SslVerify, ContextVerify, verify_none, context_set_verify,
  set_cert_verify_callback,
}
use netty_tcnative.Verify.Install.{made, verify_set, callback_set, Sound, Reached-Sound}
use netty_tcnative.Verify.Certs.{get_certs, get_certs-encoded}
use netty_tcnative.Verify.Callback.{
  Codes, Answers, VerifyState, VerifyResult, verify_retry, conclude, ssl_cert_verify,
  cert_custom_verify, custom_task, missing_issuer,
}
use netty_tcnative.Verify.Callback.Verdict.{
  Approved, ApprovedByTask, ApprovedNow, ssl_cert_verify-Approved, cert_custom_verify-Approved,
}
use netty_tcnative.Verify.Callback.Tasks.{Ready, after_task, with_tasks, task-sync}

abbrev config_0 : VerifyConfig
config_0 = record { verify_depth = 100; verify_mode = 0 }

abbrev context_0 : ContextVerify
context_0 = record {
  config = config_0;
  verifier = none;
  installed = verify_none;
  installed_depth = 100;
  callback = false;
  global_refs = 0;
}

-- SSL_CVERIFY_REQUIRED with depth 2, then a verifier.
abbrev context_2 : ContextVerify
context_2 =
    (set_cert_verify_callback boringssl false (some 7) true true
      (context_set_verify boringssl false (pos 2) (pos 2) context_0).1).1

Reached-Sound_example : Sound boringssl context_2
Reached-Sound_example =
    Reached-Sound boringssl context_2
      (callback_set false (some 7) true true (verify_set false (pos 2) (pos 2) (made 100)))

abbrev ssl_0 : SslVerify
ssl_0 = record { config = config_0; installed = verify_none; installed_depth = 100 }

-- A chain of two certificates, of which one is looked at.
abbrev chain_2 : List (List ℕ)
chain_2 = (1 ∷ []) ∷ (2 ∷ []) ∷ []

abbrev codes : Codes
codes = record { ok = pos 0; unspecified = pos 1; no_issuer = pos 20 }

-- A verifier that approves, and everything succeeds.
abbrev answers_of : Option ℤ → Answers
answers_of answer = record {
  java_env = true;
  chain = some chain_2;
  new_object_array = true;
  new_byte_array = λ k. true;
  auth_method_string = true;
  verify = λ certs. answer;
  task_class = true;
  new_task = true;
  debug = true;
}

abbrev state_0 : VerifyState
state_0 = record {
  ssl_task = none;
  task_array_len = 0;
  task_chain_num = 0;
  has_verifier = true;
  use_tasks = false;
  verify_depth = 1;
}

ssl_cert_verify-Approved_example :
    ((ssl_cert_verify codes (answers_of (some (pos 0))) 1).0 ≡ 1
      → Approved codes (answers_of (some (pos 0))) 1)
    × (((ssl_cert_verify codes (answers_of (some (pos 0))) 1).0 ≡ 1)
        ↔ ((ssl_cert_verify codes (answers_of (some (pos 0))) 1).1 ≡ pos 0))
ssl_cert_verify-Approved_example =
    ssl_cert_verify-Approved codes (answers_of (some (pos 0))) 1 ((λ e. cc), (λ e. cc))

-- What Java gets of the chain.
got : get_certs 1 chain_2 true (λ k. true) ≡ some ((1 ∷ []) ∷ [])
got = get_certs-encoded 1 chain_2 (λ k. true) (refl, tt) (λ k. refl)

ready : (answer : Option ℤ) → Ready (answers_of answer) state_0 chain_2 ((1 ∷ []) ∷ [])
ready answer = record {
  env = refl;
  no_task = refl;
  chain_sent = refl;
  certs_got = got;
  auth = refl;
  verifier_set = refl;
}

task-sync_example :
    let first : VerifyResult × VerifyState =
      cert_custom_verify codes (answers_of (some (pos 0))) true (with_tasks true state_0) in
    let second : VerifyResult × VerifyState =
      cert_custom_verify codes
        (answers_of none)
        true
        (after_task (λ certs. some (pos 0)) first.1) in
    (first.0 ≡ verify_retry)
    × (second.0
        ≡ (cert_custom_verify codes (answers_of (some (pos 0))) true (with_tasks false state_0)).0)
    × (second.1.ssl_task ≡ none)
task-sync_example =
    task-sync codes (answers_of (some (pos 0))) (answers_of none) state_0 chain_2 ((1 ∷ []) ∷ []) 0
      (ready (some (pos 0))) refl refl refl refl

-- The task of an earlier call is complete with X509_V_OK.
abbrev state_done : VerifyState
state_done = record state_0 {
  ssl_task = some (record { x509 = []; did_run = true; complete = true; return_value = pos 0 });
}

cert_custom_verify-Approved_example :
    ApprovedByTask codes state_done
    ⊎ ((state_done.ssl_task ≡ none) × ApprovedNow codes (answers_of none) state_done)
unfolding cert_custom_verify custom_task missing_issuer conclude
cert_custom_verify-Approved_example =
    cert_custom_verify-Approved codes (answers_of none) true state_done ((λ e. cc), (λ e. cc)) refl
