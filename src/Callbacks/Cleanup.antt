-- ===== src/Callbacks/Cleanup.antt =====
-- From `make` to `ssl_context_cleanup`.
use netty_tcnative.Base.{ℕ, ◌≡◌, refl, ap, ◌∙◌, Bool, true, false, Option, none, arith}
use netty_tcnative.Callbacks.{
  Slot, private_key_method, zlib, brotli, zstd, keylog, session_cache, verifier, cert_requested,
  certificate, sni, CallbackContext, Library, SetterAnswers, set_cert_requested_callback,
  set_certificate_callback, set_private_key_method, set_session_cache, set_sni_hostname_matcher,
  set_key_log_callback, set_verifier, add_certificate_compression_algorithm, clear, context_cleanup,
  new_context, remove,
}
use netty_tcnative.Callbacks.Owned.{
  IsSound, total, held, remove-IsSound, set_cert_requested_callback-IsSound,
  set_certificate_callback-IsSound, set_private_key_method-IsSound, set_session_cache-IsSound,
  set_sni_hostname_matcher-IsSound, set_verifier-IsSound, set_key_log_callback-IsSound,
  add_certificate_compression_algorithm-IsSound,
}

-- A context after any sequence of the setters.
pub data Reached : CallbackContext → Type 0 where
  made : Reached new_context
  cert_requested_set :
      (library : Library) (ctx_is_null : Bool) (object : Option ℕ) (a : SetterAnswers)
      {c : CallbackContext}
      → Reached c
      → Reached (set_cert_requested_callback library ctx_is_null object a c).1
  certificate_set :
      (linked ctx_is_null : Bool) (object : Option ℕ) (a : SetterAnswers) {c : CallbackContext}
      → Reached c
      → Reached (set_certificate_callback linked ctx_is_null object a c).1
  private_key_method_set :
      (library : Library) (ctx_is_null : Bool) (object : Option ℕ) (a : SetterAnswers)
      {c : CallbackContext}
      → Reached c
      → Reached (set_private_key_method library ctx_is_null object a c).1
  session_cache_set :
      (ctx_is_null : Bool) (object : Option ℕ) (a : SetterAnswers) {c : CallbackContext}
      → Reached c
      → Reached (set_session_cache ctx_is_null object a c).1
  sni_set :
      (ctx_is_null : Bool) (object : Option ℕ) (a : SetterAnswers) {c : CallbackContext}
      → Reached c
      → Reached (set_sni_hostname_matcher ctx_is_null object a c).1
  key_log_set :
      (library : Library) (ctx_is_null : Bool) (object : Option ℕ) (a : SetterAnswers)
      {c : CallbackContext}
      → Reached c
      → Reached (set_key_log_callback library ctx_is_null object a c).1
  verifier_set :
      (ctx_is_null : Bool) (object : Option ℕ) (a : SetterAnswers) {c : CallbackContext}
      → Reached c
      → Reached (set_verifier ctx_is_null object a c).1
  compression_added :
      (library : Library) (ctx_is_null compress decompress : Bool) (id : ℕ) (object : Option ℕ)
      (added : Bool) (a : SetterAnswers) {c : CallbackContext}
      → Reached c
      → Reached
          (add_certificate_compression_algorithm library ctx_is_null compress decompress id object
            added a c).1

Reached-IsSound : (c : CallbackContext) → Reached c → IsSound c
unfolding new_context
Reached-IsSound _ made = record { counted = refl; agrees = λ s. refl }
Reached-IsSound _ (cert_requested_set library ctx_is_null object a {c} h) =
    set_cert_requested_callback-IsSound library ctx_is_null object a c (Reached-IsSound c h)
Reached-IsSound _ (certificate_set linked ctx_is_null object a {c} h) =
    set_certificate_callback-IsSound linked ctx_is_null object a c (Reached-IsSound c h)
Reached-IsSound _ (private_key_method_set library ctx_is_null object a {c} h) =
    set_private_key_method-IsSound library ctx_is_null object a c (Reached-IsSound c h)
Reached-IsSound _ (session_cache_set ctx_is_null object a {c} h) =
    set_session_cache-IsSound ctx_is_null object a c (Reached-IsSound c h)
Reached-IsSound _ (sni_set ctx_is_null object a {c} h) =
    set_sni_hostname_matcher-IsSound ctx_is_null object a c (Reached-IsSound c h)
Reached-IsSound _ (key_log_set library ctx_is_null object a {c} h) =
    set_key_log_callback-IsSound library ctx_is_null object a c (Reached-IsSound c h)
Reached-IsSound _ (verifier_set ctx_is_null object a {c} h) =
    set_verifier-IsSound ctx_is_null object a c (Reached-IsSound c h)
Reached-IsSound _
      (compression_added library ctx_is_null compress decompress id object added a {c} h) =
    add_certificate_compression_algorithm-IsSound library ctx_is_null compress decompress id object
      added a c (Reached-IsSound c h)

clear-IsSound : (s : Slot) (c : CallbackContext) → IsSound c → IsSound (clear true s c)
unfolding remove
clear-IsSound s c h = remove-IsSound s c h

context_cleanup-IsSound : (c : CallbackContext) → IsSound c → IsSound (context_cleanup true c)
unfolding context_cleanup
context_cleanup-IsSound c h = clear-IsSound sni _ (
    clear-IsSound certificate _ (
      clear-IsSound cert_requested _ (
        clear-IsSound verifier _ (
          clear-IsSound session_cache _ (
            clear-IsSound keylog _ (
              clear-IsSound zstd _ (
                clear-IsSound brotli _
                  (clear-IsSound zlib _ (clear-IsSound private_key_method c h)))))))))

-- No slot is left out by the cleanup.
context_cleanup-empty :
    (has_env : Bool) (c : CallbackContext) (s : Slot) → (context_cleanup has_env c).slot s ≡ none
unfolding context_cleanup
context_cleanup-empty has_env c private_key_method = refl
context_cleanup-empty has_env c zlib = refl
context_cleanup-empty has_env c brotli = refl
context_cleanup-empty has_env c zstd = refl
context_cleanup-empty has_env c keylog = refl
context_cleanup-empty has_env c session_cache = refl
context_cleanup-empty has_env c verifier = refl
context_cleanup-empty has_env c cert_requested = refl
context_cleanup-empty has_env c certificate = refl
context_cleanup-empty has_env c sni = refl

context_cleanup-refs : (c : CallbackContext) → (context_cleanup false c).global_refs ≡ c.global_refs
unfolding context_cleanup
context_cleanup-refs c = refl

total-empty : (f : Slot → Option ℕ) → ((s : Slot) → f s ≡ none) → total f ≡ 0
total-empty f h = omega (
  arith,
  ap held (h private_key_method),
  ap held (h zlib),
  ap held (h brotli),
  ap held (h zstd),
  ap held (h keylog),
  ap held (h session_cache),
  ap held (h verifier),
  ap held (h cert_requested),
  ap held (h certificate),
  ap held (h sni),
)

-- After any sequence of the setters of all ten slots, with any arguments, any failures and either library, exactly the
-- references that the slots hold are live, and a callback is registered exactly for the slots that
-- hold one. `ssl_context_cleanup` leaves every slot empty; with a Java environment it leaves no
-- reference live, and without one it leaves all of them.
pub context_cleanup-releases :
    (c : CallbackContext)
    → Reached c
    → IsSound c
      × ((context_cleanup true c).global_refs ≡ 0)
      × ((context_cleanup false c).global_refs ≡ total c.slot)
      × ((has_env : Bool) (s : Slot) → (context_cleanup has_env c).slot s ≡ none)
context_cleanup-releases c h =
    let sound : IsSound c = Reached-IsSound c h in
    (
      sound,
      (context_cleanup-IsSound c sound).counted
          ∙ total-empty (context_cleanup true c).slot (context_cleanup-empty true c),
      context_cleanup-refs c ∙ sound.counted,
      λ has_env s. context_cleanup-empty has_env c s,
    )
