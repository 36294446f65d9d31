-- ===== src/Callbacks/Upcall.antt =====
-- The callbacks of sslcontext.c that ask Java at once: the server name, the session cache and the key
-- log.
use netty_tcnative.Base.{
  ℕ, ◌≡◌, ◌≢◌, ◌↔◌, ◌<◌, refl, ap, ◌∙◌, Bool, true, false, not, Option, none, some, List, length,
  arith, ◌==◌, if◌then◌else◌, Bool-cases, Option-cases, inl, inr, min, take, take-all,
}
use netty_tcnative.Base.Int.{ℤ, negsuc, int_eq, int_eq_sound, int_eq_refl}

-- SSL_TLSEXT_ERR_OK and SSL_TLSEXT_ERR_ALERT_FATAL.
pub data ExtensionResult : Type 0 where
  extension_ok alert_fatal : ExtensionResult

-- The answer of the matcher.
pub matched : Option Bool → ExtensionResult
matched none = alert_fatal
matched (some false) = alert_fatal
matched (some true) = extension_ok

-- `ssl_servername_cb`. The matcher's answer is `none` when it throws.
pub servername_cb : Option (List ℕ) → Bool → Bool → (List ℕ → Option Bool) → ExtensionResult
servername_cb none java_env new_string matches = extension_ok
servername_cb (some servername) java_env new_string matches =
    if not java_env
    then alert_fatal
    else if not new_string
    then alert_fatal
    else matched (matches servername)

-- The answer of the cache to a new session.
pub kept : Option Bool → ℕ
kept none = 0
kept (some false) = 0
kept (some true) = 1

-- `tcn_new_session_cb`: 1 keeps the session. `created` is `none` when the cache throws.
pub new_session_cb : Bool → Bool → Option Bool → ℕ
new_session_cb java_env has_cache created =
    if not java_env then 0 else if not has_cache then 0 else kept created

-- The answer of the cache to a look-up: -1 is no session.
pub session_of : Option ℤ → Option ℤ × Bool
session_of none = (none, false)
session_of (some result) = if int_eq result (negsuc 0) then (none, false) else (some result, true)

-- `tcn_get_session_cb`: the address of a session, or `none` for NULL, and whether `*copy` is cleared.
-- The cache's answer is `none` when it throws.
pub get_session_cb : Bool → Bool → Bool → (List ℕ → Option ℤ) → List ℕ → Option ℤ × Bool
get_session_cb java_env has_cache new_byte_array get_session id =
    if not java_env
    then (none, false)
    else if not has_cache
    then (none, false)
    else if not new_byte_array
    then (none, false)
    else session_of (get_session id)

-- The longest key log line, 1 MiB.
abbrev pub max_line : ℕ
max_line = 1048576

-- `keylog_cb`: the line that Java gets, if any. The line is the bytes before its NUL.
pub keylog_cb : Option (List ℕ) → Bool → Bool → Bool → Option (List ℕ)
keylog_cb none has_context java_env new_byte_array = none
keylog_cb (some line) has_context java_env new_byte_array =
    let len : ℕ = min (length line) max_line in
    if not has_context
    then none
    else if not java_env
    then none
    else if len == max_line
    then none
    else if not new_byte_array
    then none
    else some (take len line)

servername_cb_lem :
    (servername : List ℕ) (java_env new_string : Bool) (matches : List ℕ → Option Bool)
    → (servername_cb (some servername) java_env new_string matches ≡ extension_ok)
      ↔ ((java_env ≡ true) × (new_string ≡ true) × (matches servername ≡ some true))
unfolding servername_cb matched
servername_cb_lem servername java_env new_string matches =
    elim (Option-cases (matches servername)) [ inl e ↦ ground arith | inr (b, e) ↦ ground arith ]

new_session_cb_lem :
    (java_env has_cache : Bool) (created : Option Bool)
    → (new_session_cb java_env has_cache created ≡ 1)
      ↔ ((java_env ≡ true) × (has_cache ≡ true) × (created ≡ some true))
unfolding new_session_cb kept
new_session_cb_lem java_env has_cache created = ground arith

session_of_lem :
    (o : Option ℤ) (r : ℤ) → ((session_of o).0 ≡ some r) ↔ ((o ≡ some r) × (r ≢ negsuc 0))
unfolding session_of
session_of_lem none r = ((λ e. cc), (λ h. cc))
session_of_lem (some result) r = elim (Bool-cases (int_eq result (negsuc 0))) [
  | inl e ↦ (
    (λ h. absurd (none_some (rw e at h))),
    (λ h. absurd (other h (int_eq_sound result (negsuc 0) e))),
  )
  | inr e ↦ ((λ h. (rw e at h, λ k. not_last e (rw e at h) k)), (λ h. rw e h.0))
]
  where
    none_some : none ≢ some r
    none_some e = cc

    other : (some result ≡ some r) × (r ≢ negsuc 0) → result ≢ negsuc 0
    other h k = let s : r ≡ negsuc 0 = cc in h.1 s

    not_last : int_eq result (negsuc 0) ≡ false → some result ≡ some r → r ≢ negsuc 0
    not_last e h k =
        let s : result ≡ negsuc 0 = cc in
        let f : int_eq result (negsuc 0) ≡ true =
          ap (λ z. int_eq z (negsuc 0)) s ∙ int_eq_refl (negsuc 0) in
        cc

get_session_cb_lem :
    (java_env has_cache new_byte_array : Bool) (get_session : List ℕ → Option ℤ) (id : List ℕ)
    (r : ℤ)
    → ((get_session_cb java_env has_cache new_byte_array get_session id).0 ≡ some r) ↔ (
        (java_env ≡ true)
        × (has_cache ≡ true)
        × (new_byte_array ≡ true)
        × (get_session id ≡ some r)
        × (r ≢ negsuc 0))
unfolding get_session_cb
get_session_cb_lem false has_cache new_byte_array get_session id r = ((λ e. cc), (λ h. cc))
get_session_cb_lem true false new_byte_array get_session id r = ((λ e. cc), (λ h. cc))
get_session_cb_lem true true false get_session id r = ((λ e. cc), (λ h. cc))
get_session_cb_lem true true true get_session id r =
    let lem = session_of_lem (get_session id) r in
    ((λ e. (refl, refl, refl, (lem.0 e).0, (lem.0 e).1)), (λ (a, b, c, h, k). lem.1 (h, k)))

-- The callbacks that ask Java fail closed. A server name is accepted exactly if there is a Java
-- environment, its string could be made and the matcher returned true; a new session is kept exactly
-- if there is an environment and a cache, and the cache returned true; and a session is found exactly
-- if in addition the array of its id could be made and the cache returned that session, which is not
-- -1. In every other case, exceptions included, the answer is a refusal.
pub upcall_lem :
    (servername id : List ℕ) (java_env new_string has_cache new_byte_array : Bool)
    (matches : List ℕ → Option Bool) (created : Option Bool) (get_session : List ℕ → Option ℤ)
    (r : ℤ)
    → ((servername_cb (some servername) java_env new_string matches ≡ extension_ok)
        ↔ ((java_env ≡ true) × (new_string ≡ true) × (matches servername ≡ some true)))
      × ((new_session_cb java_env has_cache created ≡ 1)
          ↔ ((java_env ≡ true) × (has_cache ≡ true) × (created ≡ some true)))
      × (((get_session_cb java_env has_cache new_byte_array get_session id).0 ≡ some r) ↔ (
          (java_env ≡ true)
          × (has_cache ≡ true)
          × (new_byte_array ≡ true)
          × (get_session id ≡ some r)
          × (r ≢ negsuc 0)))
upcall_lem servername id java_env new_string has_cache new_byte_array matches created get_session
      r =
    (
      servername_cb_lem servername java_env new_string matches,
      new_session_cb_lem java_env has_cache created,
      get_session_cb_lem java_env has_cache new_byte_array get_session id r,
    )

-- With a context, a Java environment and the memory for an array, Java gets a key log line whole if it
-- is shorter than 1 MiB, and else not at all; without one of them it gets nothing. It never gets a
-- part of a line.
pub keylog_cb_lem :
    (line : List ℕ) (has_context java_env new_byte_array : Bool)
    → ((length line < max_line) → keylog_cb (some line) true true true ≡ some line)
      × ((got : List ℕ)
          → keylog_cb (some line) has_context java_env new_byte_array ≡ some got
          → (got ≡ line) × (length line < max_line))
unfolding keylog_cb
keylog_cb_lem line has_context java_env new_byte_array = (whole, part)
  where
    uncut : length line < max_line → take (min (length line) max_line) line ≡ line
    uncut h = take-all (min (length line) max_line) line (omega arith)

    below : length line < max_line → (min (length line) max_line == max_line) ≡ false
    below h = ground arith

    whole : length line < max_line → keylog_cb (some line) true true true ≡ some line
    whole h = rw (below h, uncut h) refl

    not_full : (min (length line) max_line == max_line) ≡ false → length line < max_line
    not_full h = ground arith

    part :
        (got : List ℕ)
        → keylog_cb (some line) has_context java_env new_byte_array ≡ some got
        → (got ≡ line) × (length line < max_line)
    part got e = elim (Bool-cases (min (length line) max_line == max_line)) [
      | inl h ↦ ground arith
      | inr h ↦
          let same : got ≡ take (min (length line) max_line) line = ground arith in
          (same ∙ uncut (not_full h), not_full h)
    ]
