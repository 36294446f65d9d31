-- ===== src/Certificate/Set/Reset.antt =====
-- The password and the objects of a context after `setCertificate` and `setCertificateBio`.
use netty_tcnative.Base.{
  ℕ, ◌+◌, ◌≤◌, ◌≡◌, ◌≢◌, ◌⊎◌, refl, ◌∙◌, List, Bool, true, false, Option, none, some, length, arith,
  Bool-cases, inl, inr, ◌==◌,
}
use netty_tcnative.Base.Jni.{Outcome, returned, thrown}
use netty_tcnative.Certificate.Load.{
  Live, Readers, counted, load_pem_key_bio, load_pem_cert_bio, load_pem_key, load_pem_cert, Pair,
  pem_bufsize,
}
use netty_tcnative.Certificate.Load.Balance.{
  Adds, IsPassword, pair_key, pair_cert, load_pem_key_bio-Adds, load_pem_cert_bio-Adds,
  load_pem_key-Adds, load_pem_cert-Adds, load_pkcs12-Adds,
}
use netty_tcnative.Certificate.Set.{
  CertContext, Verdict, succeeded, failed, raised, Attempt, CtxAnswers, use_pair, give_up,
  use_pkcs12, use_certificate_of, use_key_of, take_password, counted_string, free_and_reset_pass,
  result, is_success, clean_up, with_password, SetAnswers, load_files, load_named, load_bios,
  is_pkcs12, bio_at,
}

-- An attempt that began in `c` owns its key and its certificate besides what `c` does, and has left the
-- password alone. It succeeds only with the certificate and the key in the SSL_CTX.
pub record Attempted (a : CtxAnswers) (c : CertContext) (t : Attempt) : Type 0 where
  pub same_password : t.context.password ≡ c.password
  pub balance : Adds c.live (counted t.key) (counted t.cert) t.context.live
  pub certificate_in : t.verdict ≡ succeeded → t.context.certificate ≡ t.cert
  pub key_in : t.verdict ≡ succeeded → t.context.private_key ≡ t.key
  pub accepted :
      t.verdict ≡ succeeded
      → (a.use_certificate t.cert ≡ true)
        × (a.use_private_key t.key ≡ true)
        × (a.check_private_key ≡ true)

use_pair-Attempted :
    (a : CtxAnswers) (c d : CertContext) (key cert : Option ℕ)
    → d.password ≡ c.password
    → Adds c.live (counted key) (counted cert) d.live
    → Attempted a c (use_pair a key cert d)
unfolding use_pair
use_pair-Attempted a c d key cert p h = ground arith

give_up-Attempted :
    (a : CtxAnswers) (c d : CertContext) (key cert : Option ℕ)
    → d.password ≡ c.password
    → Adds c.live (counted key) (counted cert) d.live
    → Attempted a c (give_up key cert d)
give_up-Attempted a c d key cert p h = ground arith

use_pkcs12-Attempted :
    (a : CtxAnswers) (c : CertContext) (p : Pair) (l : Live)
    → Adds c.live (pair_key p) (pair_cert p) l
    → Attempted a c (use_pkcs12 a c (p, l))
unfolding use_pkcs12
use_pkcs12-Attempted a c none l h = give_up-Attempted a c _ none none refl h
use_pkcs12-Attempted a c (some (key, cert)) l h = use_pair-Attempted a c _ key cert refl h

pub Adds-then :
    (k l m : Live) (key certs : ℕ) → Adds k key 0 l → Adds l 0 certs m → Adds k key certs m
Adds-then k l m key certs g h = record {
  same_strings = h.same_strings ∙ g.same_strings;
  same_passwords = h.same_passwords ∙ g.same_passwords;
  same_bios = h.same_bios ∙ g.same_bios;
  same_pkcs12s = h.same_pkcs12s ∙ g.same_pkcs12s;
  more_keys = omega (arith, g.more_keys, h.more_keys);
  more_certs = omega (arith, g.more_certs, h.more_certs);
}

use_certificate_of-Attempted :
    (a : CtxAnswers) (key : ℕ) (c : CertContext) (r : Option ℕ × Live)
    → Adds c.live 1 (counted r.0) r.1
    → Attempted a c (use_certificate_of a key c r)
unfolding use_certificate_of
use_certificate_of-Attempted a key c (none, l) h = give_up-Attempted a c _ (some key) none refl h
use_certificate_of-Attempted a key c (some cert, l) h =
    use_pair-Attempted a c _ (some key) (some cert) refl h

use_key_of-Attempted :
    (a : CtxAnswers) (load : Live → Option ℕ × Live) (c : CertContext) (r : Option ℕ × Live)
    → ((l : Live) → Adds l 0 (counted (load l).0) (load l).1)
    → Adds c.live (counted r.0) 0 r.1
    → Attempted a c (use_key_of a load c r)
unfolding use_key_of
use_key_of-Attempted a load c (none, l) g h = give_up-Attempted a c _ none none refl h
use_key_of-Attempted a load c (some key, l) g h =
    use_certificate_of-Attempted a key c (load l) (Adds-then c.live l (load l).1 1 _ h (g l))

load_files-Attempted :
    (a : SetAnswers) (cert key : List ℕ) (c : CertContext)
    → IsPassword c.password
    → pem_bufsize ≤ length a.stack
    → (t : Attempt) × (load_files a cert key c ≡ some t) × Attempted a.ctx c t
unfolding load_files
load_files-Attempted a cert key c s h = elim (Bool-cases (is_pkcs12 cert)) [
  | inl k ↦
      let p = load_pkcs12-Adds a.pkcs12_file a.pkcs12 a.stack c.password cert c.live s h in
      (use_pkcs12 a.ctx c (p.0, p.1), simp (k, p.2), use_pkcs12-Attempted a.ctx c p.0 p.1 p.3)
  | inr k ↦ (
    use_key_of a.ctx (load_pem_cert a.cert_file a.readers c.password cert) c
        (load_pem_key a.key_file a.readers c.password key c.live),
    rw k refl,
    use_key_of-Attempted a.ctx (load_pem_cert a.cert_file a.readers c.password cert) c
        (load_pem_key a.key_file a.readers c.password key c.live)
        (λ l. load_pem_cert-Adds a.cert_file a.readers c.password cert l)
        (load_pem_key-Adds a.key_file a.readers c.password key c.live),
  )
]

nothing_owned : (a : CtxAnswers) (c : CertContext) → Attempted a c (give_up none none c)
nothing_owned a c = give_up-Attempted a c c none none refl (ground arith)

pub load_named-Attempted :
    (a : SetAnswers) (cert key : Option (List ℕ)) (c : CertContext)
    → IsPassword c.password
    → pem_bufsize ≤ length a.stack
    → (t : Attempt) × (load_named a cert key c ≡ some t) × Attempted a.ctx c t
unfolding load_named
load_named-Attempted a none key c s h = (give_up none none c, refl, nothing_owned a.ctx c)
load_named-Attempted a (some cert) none c s h = load_files-Attempted a cert cert c s h
load_named-Attempted a (some cert) (some key) c s h = load_files-Attempted a cert key c s h

pub load_bios-Attempted :
    (r : Readers (Option ℕ)) (a : CtxAnswers) (cert key : ℕ) (c : CertContext)
    → (t : Attempt) × (load_bios r a cert key c ≡ some t) × Attempted a c t
unfolding load_bios
load_bios-Attempted r a cert key c = elim (Bool-cases (cert == 0)) [
  | inl k ↦ (give_up none none c, rw k refl, nothing_owned a c)
  | inr k ↦ (
    use_key_of a (load_pem_cert_bio r c.password (bio_at cert)) c
        (load_pem_key_bio r c.password (bio_at key) c.live),
    rw k refl,
    use_key_of-Attempted a (load_pem_cert_bio r c.password (bio_at cert)) c
        (load_pem_key_bio r c.password (bio_at key) c.live)
        (λ l. load_pem_cert_bio-Adds r c.password (bio_at cert) l)
        (load_pem_key_bio-Adds r c.password (bio_at key) c.live),
  )
]

-- The password that a context has after a call: the one that came in, if the call succeeded; the old one
-- if the call brought one and failed; and none at all if a call without one failed.
abbrev pub taken : Option (List ℕ) → Option (List ℕ) → Option (List ℕ)
taken none old = old
taken (some p) old = some p

abbrev pub restored : Option (List ℕ) → Option (List ℕ) → Option (List ℕ)
restored none old = none
restored (some p) old = old

abbrev pub password_after : Outcome Bool → Option (List ℕ) → Option (List ℕ) → Option (List ℕ)
password_after (returned true) given old = taken given old
password_after (returned false) given old = restored given old
password_after (thrown x) given old = restored given old

-- What a call leaves: exactly the password of the context is allocated, and nothing else is owned that
-- was not before.
pub record Finished (a : CtxAnswers) (given : Option (List ℕ)) (c : CertContext) (o : Outcome Bool)
    (c' : CertContext) : Type 0 where
  pub password_is : c'.password ≡ password_after o given c.password
  pub passwords_owned : c'.live.passwords ≡ counted_string c'.password
  pub strings_released : c'.live.strings ≡ c.live.strings
  pub bios_freed : c'.live.bios ≡ c.live.bios
  pub keys_freed : c'.live.keys ≡ c.live.keys
  pub certs_freed : c'.live.certs ≡ c.live.certs
  pub pkcs12s_freed : c'.live.pkcs12s ≡ c.live.pkcs12s
  pub accepted :
      o ≡ returned true
      → (a.use_certificate c'.certificate ≡ true)
        × (a.use_private_key c'.private_key ≡ true)
        × (a.check_private_key ≡ true)

-- The context in which a call that owns its strings loads.
abbrev pub with_strings : ℕ → CertContext → CertContext
with_strings n c = record c { live = record c.live { strings = c.live.strings + n } }

-- A call succeeds or gives up, with or without an exception.
Verdict-cases :
    (v : Verdict)
    → (v ≡ succeeded)
      ⊎ ((is_success v ≡ false)
          × (result v ≢ returned true)
          × ((given old : Option (List ℕ))
              → password_after (result v) given old ≡ restored given old))
Verdict-cases succeeded = inl refl
Verdict-cases failed = inr (refl, λ e. cc, λ given old. refl)
Verdict-cases raised = inr (refl, λ e. cc, λ given old. refl)

clean_up-none :
    (a : CtxAnswers) (n : ℕ) (c : CertContext) (t : Attempt)
    → c.live.passwords ≡ counted_string c.password
    → Attempted a (with_strings n c) t
    → Finished a none c (clean_up n none t).0 (clean_up n none t).1
unfolding clean_up free_and_reset_pass
clean_up-none a n c t h k =
    let b = k.balance in
    elim (Verdict-cases t.verdict) [ inl e ↦ ground arith | inr e ↦ ground arith ]

-- With a password that strdup has copied.
abbrev pub with_new : List ℕ → CertContext → CertContext
with_new p c = record c {
  password = some p;
  live = record c.live { passwords = c.live.passwords + 1 };
}

clean_up-some :
    (a : CtxAnswers) (n : ℕ) (p : List ℕ) (c : CertContext) (t : Attempt)
    → c.live.passwords ≡ counted_string c.password
    → Attempted a (with_new p (with_strings n c)) t
    → Finished a (some p) c (clean_up n c.password t).0 (clean_up n c.password t).1
unfolding clean_up free_and_reset_pass
clean_up-some a n p c t h k =
    let b = k.balance in
    elim (Verdict-cases t.verdict) [ inl e ↦ ground arith | inr e ↦ ground arith ]

no_copy-Finished :
    (a : CtxAnswers) (n : ℕ) (p : List ℕ) (c : CertContext)
    → c.live.passwords ≡ counted_string c.password
    → let t : Attempt = record {
      key = none;
      cert = none;
      verdict = failed;
      context = record (with_strings n c) { password = none };
    } in
      Finished a (some p) c (clean_up n c.password t).0 (clean_up n c.password t).1
unfolding clean_up free_and_reset_pass
no_copy-Finished a n p c h = ground arith

-- Both calls, around any loader that makes an attempt.
pub with_password-Finished :
    (a : CtxAnswers) (n : ℕ) (given : Option (List ℕ)) (strdup : Bool)
    (load : CertContext → Option Attempt) (c : CertContext)
    → IsPassword given
    → IsPassword c.password
    → c.live.passwords ≡ counted_string c.password
    → ((d : CertContext)
        → IsPassword d.password
        → (t : Attempt) × (load d ≡ some t) × Attempted a d t)
    → (o : Outcome Bool) × (c' : CertContext) × (with_password n given strdup load c ≡ some (o, c'))
      × Finished a given c o c'
unfolding with_password take_password
with_password-Finished a n none strdup load c g s h k =
    let t = k (with_strings n c) s in
    ((clean_up n none t.0).0, (clean_up n none t.0).1, simp (t.1), clean_up-none a n c t.0 h t.2)
with_password-Finished a n (some p) true load c g s h k =
    let t = k (with_new p (with_strings n c)) g in
    (
      (clean_up n c.password t.0).0,
      (clean_up n c.password t.0).1,
      simp (t.1),
      clean_up-some a n p c t.0 h t.2,
    )
with_password-Finished a n (some p) false load c g s h k =
    let t : Attempt = record {
      key = none;
      cert = none;
      verdict = failed;
      context = record (with_strings n c) { password = none };
    } in
    ((clean_up n c.password t).0, (clean_up n c.password t).1, refl, no_copy-Finished a n p c h)
