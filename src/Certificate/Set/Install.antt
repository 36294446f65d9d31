-- ===== src/Certificate/Set/Install.antt =====
-- The calls `setCertificate` and `setCertificateBio` as a whole.
use netty_tcnative.Base.{
  ℕ, ◌≤◌, ◌≡◌, ◌≢◌, refl, List, Bool, true, false, Option, none, some, Bool-cases, inl, inr, ◌+◌,
  ◌==◌, length,
}
use netty_tcnative.Base.Jni.{Outcome, returned}
use netty_tcnative.Callbacks.{openssl}
use netty_tcnative.Certificate.Load.{
  Live, Readers, Callback, load_pem_key_bio, load_pem_cert_bio, pem_bufsize,
}
use netty_tcnative.Certificate.Load.Balance.{IsPassword, load_pem_key_bio-none}
use netty_tcnative.Certificate.Set.{
  CertContext, raised, Attempt, CtxAnswers, give_up, use_key_of, take_password, counted_string,
  result, clean_up, with_password, SetAnswers, load_named, set_certificate, load_bios,
  set_certificate_bio, bio_at,
}
use netty_tcnative.Certificate.Set.Reset.{
  Finished, load_named-Attempted, load_bios-Attempted, with_password-Finished,
}

set_certificate_file-Finished :
    (cert key given : Option (List ℕ)) (a : SetAnswers) (c : CertContext)
    → IsPassword given
    → IsPassword c.password
    → pem_bufsize ≤ length a.stack
    → c.live.passwords ≡ counted_string c.password
    → (o : Outcome Bool) × (c' : CertContext) × (set_certificate openssl false cert key given a c
        ≡ some (o, c'))
      × Finished a.ctx given c o c'
unfolding set_certificate
set_certificate_file-Finished cert key given a c g s b h =
    with_password-Finished a.ctx _ given a.strdup (load_named a cert key) c g s h
      (λ d k. load_named-Attempted a cert key d k b)

set_certificate_bio-Finished :
    (cert key : ℕ) (given : Option (List ℕ)) (strdup : Bool) (r : Readers (Option ℕ))
    (a : CtxAnswers) (c : CertContext)
    → IsPassword given
    → IsPassword c.password
    → c.live.passwords ≡ counted_string c.password
    → (o : Outcome Bool) × (c' : CertContext) × (set_certificate_bio openssl false cert key given
          strdup r a c
        ≡ some (o, c'))
      × Finished a given c o c'
unfolding set_certificate_bio
set_certificate_bio-Finished cert key given strdup r a c g s h =
    with_password-Finished a (counted_string given) given strdup (load_bios r a cert key) c g s h
      (λ d k. load_bios-Attempted r a cert key d)

-- On an OpenSSL build, when the passwords are C strings, the array `buff` has its size and exactly the
-- password of the context is allocated, setCertificate and setCertificateBio have no undefined
-- behaviour. They own nothing afterwards but the password of the context, which is the given one on a
-- success (the old one if none was given) and on a failure the old one if one was given and none
-- otherwise. They succeed only if the SSL_CTX took the certificate and the key and found that they
-- belong together.
pub set_certificate-Finished :
    (cert key given : Option (List ℕ)) (cert_bio key_bio : ℕ) (a : SetAnswers)
    (r : Readers (Option ℕ)) (c : CertContext)
    → IsPassword given
    → IsPassword c.password
    → pem_bufsize ≤ length a.stack
    → c.live.passwords ≡ counted_string c.password
    → ((o : Outcome Bool) × (c' : CertContext) × (set_certificate openssl false cert key given a c
          ≡ some (o, c'))
        × Finished a.ctx given c o c')
      × ((o : Outcome Bool) × (c' : CertContext) × (set_certificate_bio openssl false cert_bio
              key_bio given a.strdup r a.ctx c
            ≡ some (o, c'))
          × Finished a.ctx given c o c')
set_certificate-Finished cert key given cert_bio key_bio a r c g s b h = (
  set_certificate_file-Finished cert key given a c g s b h,
  set_certificate_bio-Finished cert_bio key_bio given a.strdup r a.ctx c g s h,
)

use_key_of-none :
    (a : CtxAnswers) (load : Live → Option ℕ × Live) (c : CertContext) (r : Option ℕ × Live)
    → r.0 ≡ none
    → (use_key_of a load c r).verdict ≡ raised
unfolding use_key_of
use_key_of-none a load c (none, l) e = refl
use_key_of-none a load c (some key, l) e = cc

-- Without a key BIO the loading ends with an exception.
load_bios-no_key :
    (r : Readers (Option ℕ)) (a : CtxAnswers) (cert : ℕ) (d : CertContext)
    → ((get : Callback) → r.read_private_key none get ≡ none)
    → (t : Attempt) × (load_bios r a cert 0 d ≡ some t) × (t.verdict ≡ raised)
unfolding load_bios
load_bios-no_key r a cert d h =
    let load = load_pem_cert_bio r d.password (bio_at cert) in
    let read = load_pem_key_bio r d.password none d.live in
    elim (Bool-cases (cert == 0)) [
      | inl k ↦ (give_up none none d, rw k refl, refl)
      | inr k ↦ (
        use_key_of a load d read,
        rw k refl,
        use_key_of-none a load d read (load_pem_key_bio-none r d.password none d.live h),
      )
    ]

result-raised : (t : Attempt) → t.verdict ≡ raised → result t.verdict ≢ returned true
result-raised t e k = cc

with_password-raises :
    (n : ℕ) (given : Option (List ℕ)) (strdup : Bool) (load : CertContext → Option Attempt)
    (c : CertContext)
    → ((d : CertContext) → (t : Attempt) × (load d ≡ some t) × (t.verdict ≡ raised))
    → (o : Outcome Bool) × (c' : CertContext) × (with_password n given strdup load c ≡ some (o, c'))
      × (o ≢ returned true)
unfolding with_password take_password clean_up
with_password-raises n none strdup load c h =
    let t = h (record c { live = record c.live { strings = c.live.strings + n } }) in
    ((clean_up n none t.0).0, (clean_up n none t.0).1, simp (t.1), result-raised t.0 t.2)
with_password-raises n (some p) true load c h =
    let t = h (record c {
      password = some p;
      live = record c.live { strings = c.live.strings + n; passwords = c.live.passwords + 1 };
    }) in
    (
      (clean_up n c.password t.0).0,
      (clean_up n c.password t.0).1,
      simp (t.1),
      result-raised t.0 t.2,
    )
with_password-raises n (some p) false load c h = (_, _, refl, λ e. cc)

-- When nothing can be read from a NULL BIO, setCertificateBio on an OpenSSL build never succeeds without
-- a key BIO, also if the certificate BIO holds the key.
pub set_certificate_bio-no_key :
    (cert : ℕ) (given : Option (List ℕ)) (strdup : Bool) (r : Readers (Option ℕ)) (a : CtxAnswers)
    (c : CertContext)
    → ((get : Callback) → r.read_private_key none get ≡ none)
    → (o : Outcome Bool) × (c' : CertContext) × (set_certificate_bio openssl false cert 0 given
          strdup r a c
        ≡ some (o, c'))
      × (o ≢ returned true)
unfolding set_certificate_bio
set_certificate_bio-no_key cert given strdup r a c h =
    with_password-raises (counted_string given) given strdup (load_bios r a cert 0) c
      (λ d. load_bios-no_key r a cert d h)
