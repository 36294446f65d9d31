-- ===== src/Callbacks/Owned.antt =====
-- The global references of a context, and the slots that they belong to, setter by setter.
use netty_tcnative.Base.{
  ℕ, ◌+◌, ◌-◌, ◌≡◌, refl, ◌∙◌, Bool, true, false, not, ◌||◌, Option, none, some, arith, ◌==◌,
  if◌then◌else◌, Bool-cases, inl, inr,
}
use netty_tcnative.Base.Jni.{Outcome, returned, thrown}
use netty_tcnative.Callbacks.{
  Slot, private_key_method, zlib, brotli, zstd, keylog, session_cache, verifier, cert_requested,
  certificate, sni, index, put, CallbackContext, Library, openssl, boringssl, release, install,
  remove, Checks, passed, check, set_if, SetterAnswers, set_cert_requested_callback,
  set_certificate_callback, set_private_key_method, set_session_cache, set_sni_hostname_matcher,
  set_key_log_callback, set_verifier, add_compression, add_certificate_compression_algorithm,
  method_checks, class_checks, decrypt_checks, cache_checks, succeeded, compression_slot,
}

-- The references that a slot holds, and the slots together.
abbrev pub held : Option ℕ → ℕ
held none = 0
held (some v) = 1

abbrev pub total : (Slot → Option ℕ) → ℕ
total f =
    held (f private_key_method)
    + held (f zlib)
    + held (f brotli)
    + held (f zstd)
    + held (f keylog)
    + held (f session_cache)
    + held (f verifier)
    + held (f cert_requested)
    + held (f certificate)
    + held (f sni)

abbrev pub is_set : Option ℕ → Bool
is_set none = false
is_set (some v) = true

-- As many references are live as slots hold one, and a callback is registered exactly for the slots
-- that do.
pub record IsSound (c : CallbackContext) : Type 0 where
  pub counted : c.global_refs ≡ total c.slot
  pub agrees : (s : Slot) → c.registered s ≡ is_set (c.slot s)

-- Replacing one slot changes the total by that slot.
total-put :
    (s : Slot) (v : Option ℕ) (f : Slot → Option ℕ)
    → total (put s v f) + held (f s) ≡ total f + held v
total-put private_key_method v f = omega arith
total-put zlib v f = omega arith
total-put brotli v f = omega arith
total-put zstd v f = omega arith
total-put keylog v f = omega arith
total-put session_cache v f = omega arith
total-put verifier v f = omega arith
total-put cert_requested v f = omega arith
total-put certificate v f = omega arith
total-put sni v f = omega arith

put-agrees :
    (s t : Slot) (v : Option ℕ) (f : Slot → Option ℕ) (r : Slot → Bool)
    → r t ≡ is_set (f t)
    → put s (is_set v) r t ≡ is_set (put s v f t)
put-agrees s t v f r h = elim (Bool-cases (index s == index t)) [
  | inl e ↦ rw e refl
  | inr e ↦ rw e h
]

release-held : (o : Option ℕ) (n : ℕ) → release o n ≡ n - held o
release-held none n = omega arith
release-held (some v) n = omega arith

install-IsSound : (s : Slot) (v : ℕ) (c : CallbackContext) → IsSound c → IsSound (install s v c)
unfolding install
install-IsSound s v c h = record {
  counted =
      release-held (c.slot s) (c.global_refs + 1)
      ∙ omega (arith, h.counted, total-put s (some v) c.slot);
  agrees = λ t. put-agrees s t (some v) c.slot c.registered (h.agrees t);
}

pub remove-IsSound : (s : Slot) (c : CallbackContext) → IsSound c → IsSound (remove s c)
unfolding remove
remove-IsSound s c h = record {
  counted =
      release-held (c.slot s) c.global_refs ∙ omega (arith, h.counted, total-put s none c.slot);
  agrees = λ t. put-agrees s t none c.slot c.registered (h.agrees t);
}

set_if-IsSound :
    (s : Slot) (v : ℕ) (checks : Checks) (c : CallbackContext)
    → IsSound c
    → IsSound (set_if s v checks c).1
set_if-IsSound s v passed c h = install-IsSound s v c h
set_if-IsSound s v (check true x rest) c h = set_if-IsSound s v rest c h
set_if-IsSound s v (check false x rest) c h = h

-- A choice of two outcomes that leave a sound context.
if-IsSound :
    (b : Bool) (x y : Outcome (Unit {0}) × CallbackContext)
    → IsSound x.1
    → IsSound y.1
    → IsSound (if b then x else y).1
if-IsSound true x y h k = h
if-IsSound false x y h k = k

pub set_cert_requested_callback-IsSound :
    (library : Library) (ctx_is_null : Bool) (callback : Option ℕ) (a : SetterAnswers)
    (c : CallbackContext)
    → IsSound c
    → IsSound (set_cert_requested_callback library ctx_is_null callback a c).1
unfolding set_cert_requested_callback
set_cert_requested_callback-IsSound library true callback a c h = h
set_cert_requested_callback-IsSound boringssl false callback a c h = h
set_cert_requested_callback-IsSound openssl false none a c h = remove-IsSound cert_requested c h
set_cert_requested_callback-IsSound openssl false (some v) a c h =
    set_if-IsSound cert_requested v (method_checks a) c h

pub set_certificate_callback-IsSound :
    (linked ctx_is_null : Bool) (callback : Option ℕ) (a : SetterAnswers) (c : CallbackContext)
    → IsSound c
    → IsSound (set_certificate_callback linked ctx_is_null callback a c).1
unfolding set_certificate_callback
set_certificate_callback-IsSound linked true callback a c h = h
set_certificate_callback-IsSound false false callback a c h = h
set_certificate_callback-IsSound true false none a c h = remove-IsSound certificate c h
set_certificate_callback-IsSound true false (some v) a c h =
    set_if-IsSound certificate v (class_checks a) c h

pub set_private_key_method-IsSound :
    (library : Library) (ctx_is_null : Bool) (method : Option ℕ) (a : SetterAnswers)
    (c : CallbackContext)
    → IsSound c
    → IsSound (set_private_key_method library ctx_is_null method a c).1
unfolding set_private_key_method
set_private_key_method-IsSound library true method a c h = h
set_private_key_method-IsSound openssl false method a c h = h
set_private_key_method-IsSound boringssl false none a c h = remove-IsSound private_key_method c h
set_private_key_method-IsSound boringssl false (some v) a c h =
    if-IsSound (not a.class_found) _ _ h (
      if-IsSound (not a.first_name) _ _ h (
        if-IsSound (not a.first_method) _ _ h (
          if-IsSound (not a.second_name) _ _ h
            (set_if-IsSound private_key_method v (decrypt_checks a) c h))))

pub set_session_cache-IsSound :
    (ctx_is_null : Bool) (cache : Option ℕ) (a : SetterAnswers) (c : CallbackContext)
    → IsSound c
    → IsSound (set_session_cache ctx_is_null cache a c).1
unfolding set_session_cache
set_session_cache-IsSound true cache a c h = h
set_session_cache-IsSound false none a c h = remove-IsSound session_cache c h
set_session_cache-IsSound false (some v) a c h = set_if-IsSound session_cache v (cache_checks a) c h

pub set_sni_hostname_matcher-IsSound :
    (ctx_is_null : Bool) (matcher : Option ℕ) (a : SetterAnswers) (c : CallbackContext)
    → IsSound c
    → IsSound (set_sni_hostname_matcher ctx_is_null matcher a c).1
unfolding set_sni_hostname_matcher
set_sni_hostname_matcher-IsSound true matcher a c h = h
set_sni_hostname_matcher-IsSound false none a c h = remove-IsSound sni c h
set_sni_hostname_matcher-IsSound false (some v) a c h = set_if-IsSound sni v (method_checks a) c h

pub set_verifier-IsSound :
    (ctx_is_null : Bool) (callback : Option ℕ) (a : SetterAnswers) (c : CallbackContext)
    → IsSound c
    → IsSound (set_verifier ctx_is_null callback a c).1
unfolding set_verifier
set_verifier-IsSound true callback a c h = h
set_verifier-IsSound false none a c h = remove-IsSound verifier c h
set_verifier-IsSound false (some v) a c h = set_if-IsSound verifier v (method_checks a) c h

succeeded-IsSound :
    (r : Outcome (Unit {0}) × CallbackContext) → IsSound r.1 → IsSound (succeeded r).1
succeeded-IsSound (returned u, c) h = h
succeeded-IsSound (thrown x, c) h = h

pub set_key_log_callback-IsSound :
    (library : Library) (ctx_is_null : Bool) (callback : Option ℕ) (a : SetterAnswers)
    (c : CallbackContext)
    → IsSound c
    → IsSound (set_key_log_callback library ctx_is_null callback a c).1
unfolding set_key_log_callback
set_key_log_callback-IsSound library true callback a c h = h
set_key_log_callback-IsSound openssl false callback a c h = h
set_key_log_callback-IsSound boringssl false none a c h = remove-IsSound keylog c h
set_key_log_callback-IsSound boringssl false (some v) a c h =
    succeeded-IsSound (set_if keylog v (method_checks a) c)
      (set_if-IsSound keylog v (method_checks a) c h)

add_compression-IsSound :
    (o : Option Slot) (added : Bool) (v : ℕ) (c : CallbackContext)
    → IsSound c
    → IsSound (add_compression o added v c).1
unfolding add_compression
add_compression-IsSound none added v c h = record {
  counted = omega (arith, h.counted);
  agrees = h.agrees;
}
add_compression-IsSound (some s) true v c h = install-IsSound s v c h
add_compression-IsSound (some s) false v c h = record {
  counted = omega (arith, h.counted);
  agrees = h.agrees;
}

pub add_certificate_compression_algorithm-IsSound :
    (library : Library) (ctx_is_null compress decompress : Bool) (id : ℕ) (algorithm : Option ℕ)
    (added : Bool) (a : SetterAnswers) (c : CallbackContext)
    → IsSound c
    → IsSound
        (add_certificate_compression_algorithm library ctx_is_null compress decompress id algorithm
          added a c).1
unfolding add_certificate_compression_algorithm
add_certificate_compression_algorithm-IsSound library true p q id algorithm added a c h = h
add_certificate_compression_algorithm-IsSound library false p q id none added a c h = h
add_certificate_compression_algorithm-IsSound openssl false p q id (some v) added a c h =
    if-IsSound (not (p || q)) _ _ h h
add_certificate_compression_algorithm-IsSound boringssl false p q id (some v) added a c h =
    if-IsSound (not (p || q)) _ _ h (
      if-IsSound (not a.class_found) _ _ h (
        if-IsSound (not a.first_method) _ _ h (
          if-IsSound (not a.second_method) _ _ h (
            if-IsSound (not a.new_global_ref) _ _ h
              (add_compression-IsSound (compression_slot id) added v c h)))))
