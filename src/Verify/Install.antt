-- ===== src/Verify/Install.antt =====
-- What OpenSSL or BoringSSL is told, after any order of the calls that configure verification.
use netty_tcnative.Base.{
  ℕ, ◌+◌, ◌≡◌, refl, sym, ap, ◌∙◌, Bool, true, false, Option, none, some, subst, arith,
}
use netty_tcnative.Base.Int.{ℤ, pos}
use netty_tcnative.Base.Jni.{Outcome, returned}
use netty_tcnative.Verify.{
  VerifyConfig, PeerVerify, verify_none, set_verify_config, stored_mode, Library, openssl,
  boringssl, SslVerify, ssl_set_verify, ContextVerify, context_set_verify, set_cert_verify_callback,
  install_verifier, remove_verifier, install_mode, release,
}
use netty_tcnative.Verify.Mode.{
  IsKnown, Settled, set_verify_config-Settled, set_verify_config-again,
}

-- A context after any sequence of the calls. A new one has depth 100 and no verification; `d` is the
-- depth that its SSL_CTX starts with.
pub data Reached (library : Library) : ContextVerify → Type 0 where
  made :
      (d : ℕ)
      → Reached library (record {
        config = record { verify_depth = 100; verify_mode = 0 };
        verifier = none;
        installed = verify_none;
        installed_depth = d;
        callback = false;
        global_refs = 0;
      })
  verify_set :
      (ctx_is_null : Bool) (level depth : ℤ) {c : ContextVerify}
      → Reached library c
      → Reached library (context_set_verify library ctx_is_null level depth c).1
  callback_set :
      (ctx_is_null : Bool) (verifier : Option ℕ) (has_method new_global_ref : Bool)
      {c : ContextVerify}
      → Reached library c
      → Reached library
          (set_cert_verify_callback library ctx_is_null verifier has_method new_global_ref c).1

-- What a verifier (or none) means for the rest of the context.
abbrev pub Serves : Library → Option ℕ → ContextVerify → Type 0
Serves library (some v) c =
    (c.installed ≡ stored_mode c.config.verify_mode) × (c.callback ≡ true) × (c.global_refs ≡ 1)
Serves openssl none c =
    (c.installed ≡ stored_mode c.config.verify_mode) × (c.callback ≡ false) × (c.global_refs ≡ 0)
Serves boringssl none c = (c.installed ≡ verify_none) × (c.callback ≡ false) × (c.global_refs ≡ 0)

install_mode-Serves :
    (library : Library) (v : Option ℕ) (c : ContextVerify) (r : PeerVerify × VerifyConfig)
    → r.0 ≡ stored_mode r.1.verify_mode
    → Serves library v c
    → let d : ContextVerify = install_mode library v r c in
      (d.verifier ≡ c.verifier) × (d.config ≡ r.1) × Serves library v d
unfolding install_mode
install_mode-Serves openssl none c r e (a, b, h) = (refl, refl, (e, b, h))
install_mode-Serves openssl (some v) c r e (a, b, h) = (refl, refl, (e, b, h))
install_mode-Serves boringssl none c r e h = (refl, refl, h)
install_mode-Serves boringssl (some v) c r e (a, b, h) = (refl, refl, (e, refl, h))

released :
    (library : Library) (v : Option ℕ) (k : ℕ) (c : ContextVerify)
    → Serves library v c
    → release v (c.global_refs + k) ≡ k
released openssl none k c (a, b, h) = omega arith
released boringssl none k c (a, b, h) = omega arith
released openssl (some v) k c (a, b, h) = omega arith
released boringssl (some v) k c (a, b, h) = omega arith

-- A context of which both hold.
abbrev pub Sound : Library → ContextVerify → Type 0
Sound library c = IsKnown c.config × Serves library c.verifier c

context_set_verify-Sound :
    (library : Library) (ctx_is_null : Bool) (level depth : ℤ) (c : ContextVerify)
    → Sound library c
    → Sound library (context_set_verify library ctx_is_null level depth c).1
unfolding context_set_verify
context_set_verify-Sound library true level depth c h = h
context_set_verify-Sound library false level depth c (known, h) =
    let r : PeerVerify × VerifyConfig = set_verify_config c.config level depth in
    let s : Settled c.config level depth r = set_verify_config-Settled c.config level depth known in
    let m = install_mode-Serves library c.verifier c r s.agrees h in
    (
      subst IsKnown (sym m.1) s.known,
      subst (λ v. Serves library v (install_mode library c.verifier r c)) (sym m.0) m.2,
    )

removed-Sound :
    (library : Library) (c : ContextVerify) (n : ℕ)
    → Sound library c
    → n ≡ 0
    → Sound library (record (remove_verifier library c) { global_refs = n })
unfolding remove_verifier
removed-Sound openssl c n (known, h) e = (known, (kept c.verifier h, refl, e))
  where
    kept : (v : Option ℕ) → Serves openssl v c → c.installed ≡ stored_mode c.config.verify_mode
    kept none g = g.0
    kept (some v) g = g.0
removed-Sound boringssl c n (known, h) e = (known, (refl, refl, e))

installed-Sound :
    (library : Library) (v : ℕ) (c : ContextVerify) (n : ℕ)
    → Sound library c
    → n ≡ 1
    → Sound library (record (install_verifier library v c) { global_refs = n })
unfolding install_verifier
installed-Sound openssl v c n (known, h) e = (known, (kept c.verifier h, refl, e))
  where
    kept : (v : Option ℕ) → Serves openssl v c → c.installed ≡ stored_mode c.config.verify_mode
    kept none g = g.0
    kept (some v) g = g.0
installed-Sound boringssl v c n (known, h) e =
    let r : PeerVerify × VerifyConfig =
      set_verify_config c.config (pos c.config.verify_mode) (pos c.config.verify_depth) in
    let s =
      set_verify_config-Settled c.config (pos c.config.verify_mode) (pos c.config.verify_depth)
        known in
    (s.known, (s.agrees, refl, e))

set_cert_verify_callback-Sound :
    (library : Library) (ctx_is_null : Bool) (verifier : Option ℕ)
    (has_method new_global_ref : Bool) (c : ContextVerify)
    → Sound library c
    → Sound library
        (set_cert_verify_callback library ctx_is_null verifier has_method new_global_ref c).1
unfolding set_cert_verify_callback
set_cert_verify_callback-Sound library true verifier has_method new_global_ref c h = h
set_cert_verify_callback-Sound library false none has_method new_global_ref c h =
    removed-Sound library c _ h (
      ap (release c.verifier) {x = c.global_refs} {y = c.global_refs + 0} (omega arith)
      ∙ released library c.verifier 0 c h.1)
set_cert_verify_callback-Sound library false (some v) false new_global_ref c h = h
set_cert_verify_callback-Sound library false (some v) true false c h = h
set_cert_verify_callback-Sound library false (some v) true true c h =
    installed-Sound library v c _ h (released library c.verifier 1 c h.1)

-- Built against either library, after any sequence of `setVerify` and `setCertVerifyCallback` calls
-- with any arguments and failures, the stored mode is one of the three and the context serves its
-- verifier: with a verifier the callback is installed, the mode in the SSL_CTX is the one that
-- belongs to the stored mode, and exactly one global reference is live. Without one there is no
-- callback and no live reference; the mode in the SSL_CTX is then the stored one with OpenSSL, and
-- no verification with BoringSSL.
pub Reached-Sound : (library : Library) (c : ContextVerify) → Reached library c → Sound library c
Reached-Sound openssl _ (made d) = (omega arith, (refl, refl, refl))
Reached-Sound boringssl _ (made d) = (omega arith, (refl, refl, refl))
Reached-Sound library _ (verify_set ctx_is_null level depth {c} h) =
    context_set_verify-Sound library ctx_is_null level depth c (Reached-Sound library c h)
Reached-Sound library _ (callback_set ctx_is_null verifier has_method new_global_ref {c} h) =
    set_cert_verify_callback-Sound library ctx_is_null verifier has_method new_global_ref c
      (Reached-Sound library c h)

boring_config :
    (v : Option ℕ) (c : ContextVerify) (r : PeerVerify × VerifyConfig)
    → (install_mode boringssl v r c).config ≡ r.1
unfolding install_mode
boring_config none c r = refl
boring_config (some v) c r = refl

-- From a context with a known mode, it does not matter in which order a mode and a verifier are set:
-- the stored configuration and the mode that the library is told are the same.
pub verify-callback_commute :
    (library : Library) (level depth : ℤ) (v : ℕ) (c : ContextVerify)
    → IsKnown c.config
    → let a =
        (set_cert_verify_callback library false
          (some v)
          true
          true
          (context_set_verify library false level depth c).1).1 in
      let b =
        (context_set_verify library false level depth
          (set_cert_verify_callback library false (some v) true true c).1).1 in
      (a.config ≡ b.config) × (a.installed ≡ b.installed)
unfolding context_set_verify set_cert_verify_callback install_mode install_verifier
verify-callback_commute openssl level depth v c known = (refl, refl)
verify-callback_commute boringssl level depth v c known =
    let r : PeerVerify × VerifyConfig = set_verify_config c.config level depth in
    let s : Settled c.config level depth r = set_verify_config-Settled c.config level depth known in
    let stored : VerifyConfig → PeerVerify × VerifyConfig =
      λ cfg. set_verify_config cfg (pos cfg.verify_mode) (pos cfg.verify_depth) in
    let first_mode : stored (install_mode boringssl c.verifier r c).config
        ≡ (stored_mode r.1.verify_mode, r.1) =
      ap stored (boring_config c.verifier c r) ∙ set_verify_config-again r.1 s.known in
    let first_verifier : set_verify_config (stored c.config).1 level depth ≡ r =
      ap (λ p. set_verify_config p.1 level depth) (set_verify_config-again c.config known) in
    (
      ap (λ p. p.1) first_mode ∙ sym (ap (λ p. p.1) first_verifier),
      ap (λ p. p.0) first_mode ∙ sym s.agrees ∙ sym (ap (λ p. p.0) first_verifier),
    )

-- After `SSL.setVerify` of an SSL whose stored mode is known, OpenSSL has the mode and the depth that
-- are stored, and BoringSSL has the mode.
pub ssl_set_verify-installs :
    (library : Library) (level depth : ℤ) (s : SslVerify)
    → IsKnown s.config
    → let r : Outcome (Unit {0}) × SslVerify = ssl_set_verify library false level depth s in
      (r.0 ≡ returned tt)
      × IsKnown r.1.config
      × (r.1.installed ≡ stored_mode r.1.config.verify_mode)
      × (library ≡ openssl → r.1.installed_depth ≡ r.1.config.verify_depth)
unfolding ssl_set_verify
ssl_set_verify-installs openssl level depth s known =
    let r = set_verify_config-Settled s.config level depth known in
    (refl, r.known, r.agrees, λ e. refl)
ssl_set_verify-installs boringssl level depth s known =
    let r = set_verify_config-Settled s.config level depth known in
    (refl, r.known, r.agrees, λ e. cc)
