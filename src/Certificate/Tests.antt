-- ===== src/Certificate/Tests.antt =====
-- The theorems on certificates and passwords at concrete passwords and answers, and runs of the code.
use netty_tcnative.Base.{
  ℕ, ◌≤◌, ◌≡◌, ◌≢◌, refl, List, [], ◌∷◌, ◌++◌, Bool, true, false, Option, none, some, length, take,
  replicate, arith,
}
use netty_tcnative.Base.Int.{pos}
use netty_tcnative.Base.Jni.{Outcome, returned}
use netty_tcnative.Callbacks.{openssl}
use netty_tcnative.Certificate.Password.{password_callback}
use netty_tcnative.Certificate.Password.Bounded.{
  IsString, length-replicate, password_callback-bounded,
}
use netty_tcnative.Certificate.Load.{
  Live, FileAnswers, Readers, load_pem_key_bio, load_pem_cert_bio, or_der,
}
use netty_tcnative.Certificate.Load.Balance.{IsPassword}
use netty_tcnative.Certificate.Set.{
  CertContext, CtxAnswers, SetAnswers, set_certificate, set_certificate_bio,
}
use netty_tcnative.Certificate.Set.Reset.{Finished}
use netty_tcnative.Certificate.Connection.{SslCerts, SslAnswers, ssl_set_certificate_bio}
use netty_tcnative.Certificate.Connection.Finished.{
  SslFinished, ssl_takes, ssl_set_certificate_bio-SslFinished,
}
use netty_tcnative.Certificate.Set.Install.{set_certificate-Finished, set_certificate_bio-no_key}

abbrev live_of : ℕ → Live
live_of n = record { strings = 0; passwords = n; bios = 2; keys = 0; certs = 0; pkcs12s = 0 }

abbrev context_of : Option (List ℕ) → ℕ → CertContext
context_of password n = record {
  password = password;
  certificate = none;
  private_key = none;
  live = live_of n;
}

abbrev file_ok : FileAnswers
file_ok = record { bio_new = true; read_filename = λ file. true }

abbrev readers : {B : Type 0} → Readers B
readers = record {
  read_private_key = λ bio get. some 3;
  read_x509_aux = λ bio get. some 4;
  no_start_line = λ bio. false;
  d2i_x509 = λ bio. none;
}

-- BIO 0 is NULL: nothing can be read from it.
abbrev bio_readers : Readers (Option ℕ)
bio_readers = record {
  read_private_key = λ bio get. elim bio [ none ↦ none | some b ↦ some 3 ];
  read_x509_aux = λ bio get. some 4;
  no_start_line = λ bio. false;
  d2i_x509 = λ bio. none;
}

abbrev ctx_answers : Bool → CtxAnswers
ctx_answers ok = record {
  use_certificate = λ cert. true;
  use_private_key = λ key. true;
  check_private_key = ok;
}

abbrev set_answers : Bool → SetAnswers
set_answers ok = record {
  strdup = true;
  pkcs12_file = file_ok;
  pkcs12 = record { d2i = true; mac = λ pass len. false; parse = λ pass. none };
  stack = replicate 1024 7;
  key_file = file_ok;
  cert_file = file_ok;
  readers = readers;
  ctx = ctx_answers ok;
}

abbrev abc : List ℕ
abc = 97 ∷ 98 ∷ 99 ∷ []

abbrev buffer : List ℕ
buffer = 9 ∷ 9 ∷ 9 ∷ []

password_callback-bounded_example :
    (final rest : List ℕ) × (password_callback (some buffer) 3 (some abc)
      ≡ some (length (take 2 abc), some final))
    × (final ≡ take 2 abc ++ 0 ∷ rest)
    × (length final ≡ length buffer)
    × (length (take 2 abc) ≤ 2)
unfolding IsString
password_callback-bounded_example =
    password_callback-bounded buffer abc 2 (omega arith, (omega arith, (omega arith, tt)))
      (omega arith)

set_certificate-Finished_example :
    ((o : Outcome Bool) × (c' : CertContext) × (set_certificate openssl false
          (some (97 ∷ []))
          none
          (some (98 ∷ []))
          (set_answers true)
          (context_of none 0)
        ≡ some (o, c'))
      × Finished (ctx_answers true) (some (98 ∷ [])) (context_of none 0) o c')
    × ((o : Outcome Bool) × (c' : CertContext) × (set_certificate_bio openssl false 5 6
            (some (98 ∷ []))
            true
            bio_readers
            (ctx_answers true)
            (context_of none 0)
          ≡ some (o, c'))
        × Finished (ctx_answers true) (some (98 ∷ [])) (context_of none 0) o c')
unfolding IsPassword IsString
set_certificate-Finished_example =
    set_certificate-Finished (some (97 ∷ [])) none (some (98 ∷ [])) 5 6 (set_answers true)
      bio_readers (context_of none 0) (omega arith, tt) tt (omega (arith, length-replicate 1024 7))
      refl

set_certificate_bio-no_key_example :
    (o : Outcome Bool) × (c' : CertContext) × (set_certificate_bio openssl false 5 0 none true
        bio_readers
        (ctx_answers true)
        (context_of none 0)
      ≡ some (o, c'))
    × (o ≢ returned true)
set_certificate_bio-no_key_example =
    set_certificate_bio-no_key 5 none true bio_readers (ctx_answers true) (context_of none 0)
      (λ get. refl)

abbrev ssl_answers : SslAnswers
ssl_answers = record {
  use_certificate = λ cert. true;
  use_private_key = λ key. true;
  check_private_key = true;
}

abbrev ssl_certs : SslCerts
ssl_certs = record { certificate = none; private_key = none; live = live_of 0 }

-- With both BIOs the pair is installed.
ssl_set_certificate_bio-SslFinished_example : SslFinished true (some 3) (some 4) ssl_certs (
    ssl_set_certificate_bio openssl false
      (pos 5)
      (pos 6)
      (some abc)
      bio_readers
      ssl_answers
      ssl_certs)
unfolding ssl_takes load_pem_key_bio load_pem_cert_bio or_der
ssl_set_certificate_bio-SslFinished_example =
    ssl_set_certificate_bio-SslFinished (pos 5) (pos 6) (some abc) bio_readers ssl_answers ssl_certs
