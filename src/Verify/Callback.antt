-- ===== src/Verify/Callback.antt =====
-- The verification callbacks of sslcontext.c: `SSL_cert_verify` for OpenSSL, and
-- `tcn_SSL_cert_custom_verify` for BoringSSL, which may hand the work out as a task.
pub mod Verdict
pub mod Tasks
use netty_tcnative.Base.{
  ℕ, Bool, true, false, not, ◌&&◌, Option, none, some, List, length, ltb, if◌then◌else◌,
}
use netty_tcnative.Base.Int.{ℤ, pos, int_eq, is_negative}
use netty_tcnative.Verify.Certs.{get_certs}

-- The result codes of OpenSSL that the source names: X509_V_OK, X509_V_ERR_UNSPECIFIED and
-- X509_V_ERR_UNABLE_TO_GET_ISSUER_CERT_LOCALLY.
pub record Codes : Type 0 where
  pub ok : ℤ
  pub unspecified : ℤ
  pub no_issuer : ℤ

-- What OpenSSL and the JNI answer during one call. `verify` is the verifier's Java method; `none`
-- means that it threw. `debug` is whether the build has assertions.
pub record Answers : Type 0 where
  pub java_env : Bool
  pub chain : Option (List (List ℕ))
  pub new_object_array : Bool
  pub new_byte_array : ℕ → Bool
  pub auth_method_string : Bool
  pub verify : List (List ℕ) → Option ℤ
  pub task_class : Bool
  pub new_task : Bool
  pub debug : Bool

-- An unspecified failure of a verifier that did not see the whole chain is a missing issuer.
unfoldable pub missing_issuer : Codes → ℤ → ℕ → ℕ → ℤ
missing_issuer x result len total =
    if int_eq result x.unspecified && ltb len total then x.no_issuer else result

-- The result of the Java call.
pub from_java : Codes → Option ℤ → ℕ → ℕ → ℤ
from_java x none len total = x.unspecified
from_java x (some result) len total = missing_issuer x result len total

-- `SSL_cert_verify` from the call of `get_certs` on.
pub verify_certs : Codes → Answers → List (List ℕ) → Option (List (List ℕ)) → ℤ
verify_certs x a sk none = x.unspecified
verify_certs x a sk (some certs) =
    if not a.auth_method_string
    then x.unspecified
    else from_java x (a.verify certs) (length certs) (length sk)

pub verify_chain : Codes → Answers → ℕ → Option (List (List ℕ)) → ℤ
verify_chain x a depth none = x.unspecified
verify_chain x a depth (some sk) =
    verify_certs x a sk (get_certs depth sk a.new_object_array a.new_byte_array)

-- `SSL_cert_verify`: its return value, and the error that it sets in the X509_STORE_CTX.
pub ssl_cert_verify : Codes → Answers → ℕ → ℕ × ℤ
ssl_cert_verify x a depth =
    let result : ℤ = if not a.java_env then x.unspecified else verify_chain x a depth a.chain in
    (if int_eq result x.ok then 1 else 0, result)

-- A verification task: the Java object `CertificateVerifierTask` with the fields of `SSLTask`.
pub record Task : Type 0 where
  pub x509 : List (List ℕ)
  pub did_run : Bool
  pub complete : Bool
  pub return_value : ℤ

-- The fields of `tcn_ssl_state_t` that the BoringSSL callback uses, and those of its context.
pub record VerifyState : Type 0 where
  pub ssl_task : Option Task
  pub task_array_len : ℕ
  pub task_chain_num : ℕ
  pub has_verifier : Bool
  pub use_tasks : Bool
  pub verify_depth : ℕ

-- ssl_verify_ok, ssl_verify_invalid with the result that the alert is made from, ssl_verify_retry; and the
-- end of the process at a TCN_ASSERT that fails.
pub data VerifyResult : Type 0 where
  verify_ok verify_retry aborted : VerifyResult
  verify_invalid : ℤ → VerifyResult

-- What follows the label `complete`, unless the operation is to be retried.
unfoldable pub conclude : Codes → ℤ → VerifyResult
conclude x result = if int_eq result x.ok then verify_ok else verify_invalid result

unfoldable pub start_task :
    Codes → Answers → List (List ℕ) → List (List ℕ) → VerifyState → VerifyResult × VerifyState
start_task x a sk certs s =
    if not a.task_class
    then (conclude x x.unspecified, s)
    else if not a.new_task
    then (conclude x x.unspecified, record s { ssl_task = none })
    else (
      verify_retry,
      record s {
        ssl_task =
            some (record { x509 = certs; did_run = false; complete = false; return_value = pos 0 });
        task_array_len = length certs;
        task_chain_num = length sk;
      },
    )

-- The callback from the call of `get_certs` on.
unfoldable pub custom_certs :
    Codes
    → Answers
    → List (List ℕ)
    → Option (List (List ℕ))
    → VerifyState
    → VerifyResult × VerifyState
custom_certs x a sk none s = (conclude x x.unspecified, s)
custom_certs x a sk (some certs) s =
    if not a.auth_method_string
    then (conclude x x.unspecified, s)
    else if not s.has_verifier
    then (conclude x (if ltb (length certs) (length sk) then x.no_issuer else x.unspecified), s)
    else if s.use_tasks
    then start_task x a sk certs s
    else (conclude x (from_java x (a.verify certs) (length certs) (length sk)), s)

-- A first call, without a task.
unfoldable pub custom_chain :
    Codes → Answers → Option (List (List ℕ)) → VerifyState → VerifyResult × VerifyState
custom_chain x a none s = (conclude x x.unspecified, s)
custom_chain x a (some sk) s =
    custom_certs x a sk (get_certs s.verify_depth sk a.new_object_array a.new_byte_array) s

unfoldable pub custom_task :
    Codes → Answers → Option Task → VerifyState → VerifyResult × VerifyState
custom_task x a none s = custom_chain x a a.chain s
custom_task x a (some t) s = if not t.complete then (verify_retry, s) else (
  if is_negative t.return_value && a.debug
      then aborted
      else conclude x (missing_issuer x t.return_value s.task_array_len s.task_chain_num),
  record s { ssl_task = none },
)

-- `tcn_SSL_cert_custom_verify`; a missing state or context is `has_context` = false.
unfoldable pub cert_custom_verify :
    Codes → Answers → Bool → VerifyState → VerifyResult × VerifyState
cert_custom_verify x a has_context s =
    if not has_context
    then (conclude x x.unspecified, s)
    else if not a.java_env
    then (conclude x x.unspecified, s)
    else custom_task x a s.ssl_task s

-- `CertificateVerifierTask.runTask` under `SSLTask.run`: a verifier that throws leaves `didRun` set
-- and `complete` unset.
pub finish : Option ℤ → Task → Task
finish none t = record t { did_run = true }
finish (some r) t = record t { did_run = true; complete = true; return_value = r }

pub run_task : (List (List ℕ) → Option ℤ) → Task → Task
run_task verify t = if t.did_run then t else finish (verify t.x509) t

-- Java runs the pending task of an SSL.
pub run_pending : (List (List ℕ) → Option ℤ) → Option Task → Option Task
run_pending verify none = none
run_pending verify (some t) = some (run_task verify t)
