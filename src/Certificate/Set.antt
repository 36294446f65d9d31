-- ===== src/Certificate/Set.antt =====
-- `setCertificate` and `setCertificateBio` of openssl-dynamic/src/main/c/sslcontext.c.
pub mod Reset
pub mod Install
use netty_tcnative.Base.{
  ℕ, ◌+◌, ◌-◌, ◌∷◌, [], List, Bool, true, false, Option, none, some, ◌++◌, ◌>>=◌, ltb, leb, not,
  if◌then◌else◌, length, take, drop, replicate, write_at, eq_bytes, ◌||◌, ◌==◌,
}
use netty_tcnative.Base.Jni.{Exception, Outcome, returned, thrown, exception, null_pointer}
use netty_tcnative.Callbacks.{Library, openssl, boringssl}
use netty_tcnative.Certificate.Load.{
  Live, Callback, FileAnswers, Readers, counted, load_pem_key_bio, load_pem_cert_bio, load_pem_key,
  load_pem_cert, Pkcs12Answers, Pair, load_pkcs12,
}

-- The fields of `tcn_ssl_ctxt_t` that the calls use, and the certificate and the key that the SSL_CTX
-- took last.
pub record CertContext : Type 0 where
  pub password : Option (List ℕ)
  pub certificate : Option ℕ
  pub private_key : Option ℕ
  pub live : Live

pub data Verdict : Type 0 where
  succeeded failed raised : Verdict

-- The local variables of a call when it comes to `cleanup`. `failed` is a failure without exception.
pub record Attempt : Type 0 where
  pub key : Option ℕ
  pub cert : Option ℕ
  pub verdict : Verdict
  pub context : CertContext

-- SSL_CTX_use_certificate, SSL_CTX_use_PrivateKey and SSL_CTX_check_private_key.
pub record CtxAnswers : Type 0 where
  pub use_certificate : Option ℕ → Bool
  pub use_private_key : Option ℕ → Bool
  pub check_private_key : Bool

-- The last three tests of both calls.
pub use_pair : CtxAnswers → Option ℕ → Option ℕ → CertContext → Attempt
use_pair a key cert c =
    if not (a.use_certificate cert)
    then record { key = key; cert = cert; verdict = raised; context = c }
    else if not (a.use_private_key key)
    then record {
      key = key;
      cert = cert;
      verdict = raised;
      context = record c { certificate = cert };
    }
    else record {
      key = key;
      cert = cert;
      verdict = if a.check_private_key then succeeded else raised;
      context = record c { certificate = cert; private_key = key };
    }

-- A `goto cleanup` with an exception.
abbrev pub give_up : Option ℕ → Option ℕ → CertContext → Attempt
give_up key cert c = record { key = key; cert = cert; verdict = raised; context = c }

-- `strrchr(file, '.')`.
abbrev pub strrchr_dot : List ℕ → Option (List ℕ)
strrchr_dot [] = none
strrchr_dot (x ∷ xs) = elim (strrchr_dot xs) [
  | some p ↦ some p
  | none ↦ if x == 46 then some (x ∷ xs) else none
]

-- The characters of ".pkcs12".
abbrev pub pkcs12_suffix : List ℕ
pkcs12_suffix = 46 ∷ 112 ∷ 107 ∷ 99 ∷ 115 ∷ 49 ∷ 50 ∷ []

abbrev pub is_pkcs12 : List ℕ → Bool
is_pkcs12 file = elim (strrchr_dot file) [ some p ↦ eq_bytes p pkcs12_suffix | none ↦ false ]

-- The loaders of the two calls, and what they are asked for. A key that was loaded is owned when the
-- certificate fails.
pub use_pkcs12 : CtxAnswers → CertContext → Pair × Live → Attempt
use_pkcs12 a c (none, l) = give_up none none (record c { live = l })
use_pkcs12 a c (some (key, cert), l) = use_pair a key cert (record c { live = l })

pub use_certificate_of : CtxAnswers → ℕ → CertContext → Option ℕ × Live → Attempt
use_certificate_of a key c (none, l) = give_up (some key) none (record c { live = l })
use_certificate_of a key c (some cert, l) =
    use_pair a (some key) (some cert) (record c { live = l })

-- Loading a certificate after the key, by `load`.
pub use_key_of : CtxAnswers → (Live → Option ℕ × Live) → CertContext → Option ℕ × Live → Attempt
use_key_of a load c (none, l) = give_up none none (record c { live = l })
use_key_of a load c (some key, l) = use_certificate_of a key c (load l)

-- `c->password` with a password that came in: the old one, whether strdup succeeded, and the context.
pub take_password : Option (List ℕ) → Bool → CertContext → Option (List ℕ) × Bool × CertContext
take_password none strdup c = (none, true, c)
take_password (some p) false c = (c.password, false, record c { password = none })
take_password (some p) true c = (
  c.password,
  true,
  record c { password = some p; live = record c.live { passwords = c.live.passwords + 1 } },
)

abbrev pub counted_string : Option (List ℕ) → ℕ
counted_string none = 0
counted_string (some s) = 1

-- `free_and_reset_pass`.
pub free_and_reset_pass : CertContext → Option (List ℕ) → Bool → CertContext
free_and_reset_pass c old_password false = record c {
  password = old_password;
  live = record c.live { passwords = c.live.passwords - counted_string c.password };
}
free_and_reset_pass c old_password true = record c {
  live = record c.live { passwords = c.live.passwords - counted_string old_password };
}

abbrev pub result : Verdict → Outcome Bool
result succeeded = returned true
result failed = returned false
result raised = thrown exception

abbrev pub is_success : Verdict → Bool
is_success succeeded = true
is_success failed = false
is_success raised = false

-- `cleanup` of both calls: `strings` is how many characters of Java strings are given back.
pub clean_up : ℕ → Option (List ℕ) → Attempt → Outcome Bool × CertContext
clean_up strings old_password t = (
  result t.verdict,
  free_and_reset_pass
      (record t.context {
        live = record t.context.live {
          strings = t.context.live.strings - strings;
          keys = t.context.live.keys - counted t.key;
          certs = t.context.live.certs - counted t.cert;
        };
      })
      old_password (is_success t.verdict),
)

-- Both calls around what they load once the password is in place.
pub with_password :
    ℕ
    → Option (List ℕ)
    → Bool
    → (CertContext → Option Attempt)
    → CertContext
    → Option (Outcome Bool × CertContext)
with_password strings password strdup load c =
    let taken =
      take_password password strdup
        (record c { live = record c.live { strings = c.live.strings + strings } }) in
    (if taken.1
      then load taken.2
      else some (record { key = none; cert = none; verdict = failed; context = taken.2 }))
    >>= λ t. some (clean_up strings taken.0 t)

-- J2P of a `jlong`.
abbrev pub bio_at : ℕ → Option ℕ
bio_at a = if a == 0 then none else some a

-- What OpenSSL answers to `setCertificate`: the PKCS12 file, the key file and the certificate file.
pub record SetAnswers : Type 0 where
  pub strdup : Bool
  pub pkcs12_file : FileAnswers
  pub pkcs12 : Pkcs12Answers
  pub stack : List ℕ
  pub key_file : FileAnswers
  pub cert_file : FileAnswers
  pub readers : Readers (List ℕ)
  pub ctx : CtxAnswers

-- The files of `setCertificate`, by their names.
pub load_files : SetAnswers → List ℕ → List ℕ → CertContext → Option Attempt
load_files a cert key c =
    if is_pkcs12 cert
    then (load_pkcs12 a.pkcs12_file a.pkcs12 a.stack c.password cert c.live
        >>= (λ r. some (use_pkcs12 a.ctx c r)))
    else some (
        use_key_of a.ctx (load_pem_cert a.cert_file a.readers c.password cert) c
          (load_pem_key a.key_file a.readers c.password key c.live))

-- The key file is the certificate file when there is none; without a certificate file the call throws.
pub load_named : SetAnswers → Option (List ℕ) → Option (List ℕ) → CertContext → Option Attempt
load_named a none key c = some (give_up none none c)
load_named a (some cert) none c = load_files a cert cert c
load_named a (some cert) (some key) c = load_files a cert key c

-- `setCertificate`. Its strings are those that GetStringUTFChars gives, `none` for a NULL.
pub set_certificate :
    Library
    → Bool
    → Option (List ℕ)
    → Option (List ℕ)
    → Option (List ℕ)
    → SetAnswers
    → CertContext
    → Option (Outcome Bool × CertContext)
set_certificate boringssl ctx_is_null cert key password a c = some (thrown exception, c)
set_certificate openssl true cert key password a c = some (thrown null_pointer, c)
set_certificate openssl false cert key password a c =
    with_password (counted_string cert + counted_string key + counted_string password) password
      a.strdup (load_named a cert key) c

-- A BIO by its address: 0 is NULL.
pub load_bios : Readers (Option ℕ) → CtxAnswers → ℕ → ℕ → CertContext → Option Attempt
load_bios r a cert key c =
    if cert == 0
    then some (give_up none none c)
    else some (
        use_key_of a (load_pem_cert_bio r c.password (bio_at cert)) c
          (load_pem_key_bio r c.password (bio_at key) c.live))

-- `setCertificateBio`. The assignment `key = cert` for a missing key comes after `key_bio` was taken
-- from `key`, and `key_bio` is what is read.
pub set_certificate_bio :
    Library
    → Bool
    → ℕ
    → ℕ
    → Option (List ℕ)
    → Bool
    → Readers (Option ℕ)
    → CtxAnswers
    → CertContext
    → Option (Outcome Bool × CertContext)
set_certificate_bio boringssl ctx_is_null cert key password strdup r a c =
    some (thrown exception, c)
set_certificate_bio openssl true cert key password strdup r a c = some (thrown null_pointer, c)
set_certificate_bio openssl false cert key password strdup r a c =
    with_password (counted_string password) password strdup (load_bios r a cert key) c
