-- ===== src/Callbacks.antt =====
-- The Java objects that an SSL_CTX calls back into: the calls of
-- openssl-dynamic/src/main/c/sslcontext.c that store and replace them, and `ssl_context_cleanup`.
pub mod Owned
pub mod Cleanup
pub mod Upcall
mod Tests
use netty_tcnative.Base.{
  ℕ, ◌+◌, ◌-◌, Bool, true, false, not, ◌||◌, Option, none, some, ◌==◌, if◌then◌else◌,
}
use netty_tcnative.Base.Jni.{
  Exception, Outcome, returned, thrown, null_pointer, illegal_argument, out_of_memory, exception,
}

-- The fields of `tcn_ssl_ctxt_t` that hold a global reference to a Java object.
pub data Slot : Type 0 where
  private_key_method zlib brotli zstd keylog session_cache verifier cert_requested certificate sni :
      Slot

-- Slots are compared by a number.
abbrev pub index : Slot → ℕ
index private_key_method = 0
index zlib = 1
index brotli = 2
index zstd = 3
index keylog = 4
index session_cache = 5
index verifier = 6
index cert_requested = 7
index certificate = 8
index sni = 9

abbrev pub put {ℓ} : {A : Type ℓ} → Slot → A → (Slot → A) → Slot → A
put s a f t = if index s == index t then a else f t

-- What the slots hold (`none` is NULL), whether the C callback of a slot is registered with the
-- SSL_CTX, and the number of live global references.
pub record CallbackContext : Type 0 where
  pub slot : Slot → Option ℕ
  pub registered : Slot → Bool
  pub global_refs : ℕ

-- Which library the code is built against.
pub data Library : Type 0 where
  openssl boringssl : Library

-- DeleteGlobalRef of an old object, if there is one.
abbrev pub release : Option ℕ → ℕ → ℕ
release none refs = refs
release (some v) refs = refs - 1

-- The end of a setter that was given an object: NewGlobalRef has succeeded, the reference is stored,
-- the callback is registered, and the old reference is deleted.
pub install : Slot → ℕ → CallbackContext → CallbackContext
install s v c = record {
  slot = put s (some v) c.slot;
  registered = put s true c.registered;
  global_refs = release (c.slot s) (c.global_refs + 1);
}

-- A setter that was given NULL.
pub remove : Slot → CallbackContext → CallbackContext
remove s c = record {
  slot = put s none c.slot;
  registered = put s false c.registered;
  global_refs = release (c.slot s) c.global_refs;
}

-- The checks of a setter one after the other: the first that fails throws.
pub data Checks : Type 0 where
  passed : Checks
  check : Bool → Exception → Checks → Checks

abbrev pub set_if : Slot → ℕ → Checks → CallbackContext → Outcome (Unit {0}) × CallbackContext
set_if s v passed c = (returned tt, install s v c)
set_if s v (check true x rest) c = set_if s v rest c
set_if s v (check false x rest) c = (thrown x, c)

-- What the JNI answers to a setter.
pub record SetterAnswers : Type 0 where
  pub class_found : Bool
  pub first_name : Bool
  pub first_method : Bool
  pub second_name : Bool
  pub second_method : Bool
  pub new_global_ref : Bool

-- The checks of the setters: the class, the methods, and NewGlobalRef.
abbrev pub method_checks : SetterAnswers → Checks
method_checks a =
    check a.first_method illegal_argument (check a.new_global_ref out_of_memory passed)

abbrev pub class_checks : SetterAnswers → Checks
class_checks a = check a.class_found exception (method_checks a)

abbrev pub decrypt_checks : SetterAnswers → Checks
decrypt_checks a =
    check a.second_method illegal_argument (check a.new_global_ref out_of_memory passed)

abbrev pub cache_checks : SetterAnswers → Checks
cache_checks a =
    check a.class_found exception (check a.first_method illegal_argument (decrypt_checks a))

-- `setCertRequestedCallback`.
pub set_cert_requested_callback :
    Library
    → Bool
    → Option ℕ
    → SetterAnswers
    → CallbackContext
    → Outcome (Unit {0}) × CallbackContext
set_cert_requested_callback library true callback a c = (thrown null_pointer, c)
set_cert_requested_callback boringssl false callback a c = (thrown exception, c)
set_cert_requested_callback openssl false none a c = (returned tt, remove cert_requested c)
set_cert_requested_callback openssl false (some v) a c = set_if cert_requested v (method_checks a) c

-- `setCertificateCallback`, where SSL_CTX_set_cert_cb is there (`linked`) or not.
pub set_certificate_callback :
    Bool → Bool → Option ℕ → SetterAnswers → CallbackContext → Outcome (Unit {0}) × CallbackContext
set_certificate_callback linked true callback a c = (thrown null_pointer, c)
set_certificate_callback false false callback a c = (thrown exception, c)
set_certificate_callback true false none a c = (returned tt, remove certificate c)
set_certificate_callback true false (some v) a c = set_if certificate v (class_checks a) c

-- `setPrivateKeyMethod0`. When the signature of a method cannot be built the call returns without an
-- exception.
pub set_private_key_method :
    Library
    → Bool
    → Option ℕ
    → SetterAnswers
    → CallbackContext
    → Outcome (Unit {0}) × CallbackContext
set_private_key_method library true method a c = (thrown null_pointer, c)
set_private_key_method openssl false method a c = (thrown exception, c)
set_private_key_method boringssl false none a c = (returned tt, remove private_key_method c)
set_private_key_method boringssl false (some v) a c =
    if not a.class_found
    then (thrown exception, c)
    else if not a.first_name
    then (returned tt, c)
    else if not a.first_method
    then (thrown illegal_argument, c)
    else if not a.second_name
    then (returned tt, c)
    else set_if private_key_method v (decrypt_checks a) c

-- `setSSLSessionCache`.
pub set_session_cache :
    Bool → Option ℕ → SetterAnswers → CallbackContext → Outcome (Unit {0}) × CallbackContext
set_session_cache true cache a c = (thrown null_pointer, c)
set_session_cache false none a c = (returned tt, remove session_cache c)
set_session_cache false (some v) a c = set_if session_cache v (cache_checks a) c

-- `setSniHostnameMatcher`.
pub set_sni_hostname_matcher :
    Bool → Option ℕ → SetterAnswers → CallbackContext → Outcome (Unit {0}) × CallbackContext
set_sni_hostname_matcher true matcher a c = (thrown null_pointer, c)
set_sni_hostname_matcher false none a c = (returned tt, remove sni c)
set_sni_hostname_matcher false (some v) a c = set_if sni v (method_checks a) c

-- The value of a JNI call that also returns a `jboolean`: JNI_TRUE where it returns normally.
abbrev pub succeeded : Outcome (Unit {0}) × CallbackContext → Outcome Bool × CallbackContext
succeeded (returned u, c) = (returned true, c)
succeeded (thrown x, c) = (thrown x, c)

-- `setKeyLogCallback`.
pub set_key_log_callback :
    Library → Bool → Option ℕ → SetterAnswers → CallbackContext → Outcome Bool × CallbackContext
set_key_log_callback library true callback a c = (thrown null_pointer, c)
set_key_log_callback openssl false callback a c = (returned false, c)
set_key_log_callback boringssl false none a c = (returned true, remove keylog c)
set_key_log_callback boringssl false (some v) a c = succeeded (set_if keylog v (method_checks a) c)

-- TLSEXT_cert_compression_zlib, -brotli and -zstd.
abbrev pub compression_slot : ℕ → Option Slot
compression_slot id =
    if id == 1
    then some zlib
    else if id == 2
    then some brotli
    else if id == 3
    then some zstd
    else none

-- The switch of `addCertificateCompressionAlgorithm0`, after NewGlobalRef. `added` is the result of
-- SSL_CTX_add_cert_compression_alg. A reference that is not stored is deleted again.
pub add_compression :
    Option Slot → Bool → ℕ → CallbackContext → Outcome (Unit {0}) × CallbackContext
add_compression none added v c =
    (thrown exception, record c { global_refs = c.global_refs + 1 - 1 })
add_compression (some s) added v c =
    if added
    then (returned tt, install s v c)
    else (thrown exception, record c { global_refs = c.global_refs + 1 - 1 })

-- `addCertificateCompressionAlgorithm0`. `compress` and `decompress` are the bits of `direction`.
pub add_certificate_compression_algorithm :
    Library
    → Bool
    → Bool
    → Bool
    → ℕ
    → Option ℕ
    → Bool
    → SetterAnswers
    → CallbackContext
    → Outcome (Unit {0}) × CallbackContext
add_certificate_compression_algorithm library true compress decompress id algorithm added a c =
    (thrown null_pointer, c)
add_certificate_compression_algorithm library false compress decompress id none added a c =
    (thrown illegal_argument, c)
add_certificate_compression_algorithm openssl false compress decompress id (some v) added a c =
    if not (compress || decompress) then (thrown illegal_argument, c) else (thrown exception, c)
add_certificate_compression_algorithm boringssl false compress decompress id (some v) added a c =
    if not (compress || decompress)
    then (thrown illegal_argument, c)
    else if not a.class_found
    then (thrown exception, c)
    else if not (a.first_method)
    then (thrown illegal_argument, c)
    else if not (a.second_method)
    then (thrown illegal_argument, c)
    else if not a.new_global_ref
    then (thrown out_of_memory, c)
    else add_compression (compression_slot id) added v c

-- `setCertVerifyCallback` on its slot. The verify mode that goes with it is in Verify.
pub set_verifier :
    Bool → Option ℕ → SetterAnswers → CallbackContext → Outcome (Unit {0}) × CallbackContext
set_verifier true callback a c = (thrown null_pointer, c)
set_verifier false none a c = (returned tt, remove verifier c)
set_verifier false (some v) a c = set_if verifier v (method_checks a) c

-- One slot in `ssl_context_cleanup`: the reference is deleted if there is a Java environment, and the
-- slot is NULL afterwards. The SSL_CTX with its callbacks has been freed before.
abbrev pub clear : Bool → Slot → CallbackContext → CallbackContext
clear has_env s c = record {
  slot = put s none c.slot;
  registered = put s false c.registered;
  global_refs = if has_env then release (c.slot s) c.global_refs else c.global_refs;
}

-- The slots in `ssl_context_cleanup`, in its order.
pub context_cleanup : Bool → CallbackContext → CallbackContext
context_cleanup has_env c = clear has_env sni (
    clear has_env certificate (
      clear has_env cert_requested (
        clear has_env verifier (
          clear has_env session_cache (
            clear has_env keylog (
              clear has_env zstd (
                clear has_env brotli
                  (clear has_env zlib (clear has_env private_key_method c)))))))))

-- A context that `make` has zeroed.
pub new_context : CallbackContext
new_context = record { slot = λ s. none; registered = λ s. false; global_refs = 0 }
