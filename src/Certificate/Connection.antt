-- ===== src/Certificate/Connection.antt =====
-- The certificate and the key of one connection: `setCertificateBio` and `parsePrivateKey` of
-- openssl-dynamic/src/main/c/ssl.c.
pub mod Finished
use netty_tcnative.Base.{
  ℕ, ◌+◌, ◌-◌, ◌^◌, List, Bool, true, false, Option, none, some, not, ◌||◌, if◌then◌else◌, ◌==◌,
}
use netty_tcnative.Base.Int.{ℤ, pos, negsuc, not_positive}
use netty_tcnative.Base.Jni.{Outcome, returned, thrown, exception, null_pointer}
use netty_tcnative.Callbacks.{Library, openssl, boringssl}
use netty_tcnative.Certificate.Load.{Live, Readers, counted, load_pem_key_bio, load_pem_cert_bio}
use netty_tcnative.Certificate.Set.{counted_string, bio_at}

-- The certificate and the key of an SSL, which holds references of its own to them, and what the calls
-- own.
pub record SslCerts : Type 0 where
  pub certificate : Option ℕ
  pub private_key : Option ℕ
  pub live : Live

-- SSL_use_certificate, SSL_use_PrivateKey and SSL_check_private_key.
pub record SslAnswers : Type 0 where
  pub use_certificate : ℕ → Bool
  pub use_private_key : ℕ → Bool
  pub check_private_key : Bool

abbrev pub SslDone : Type 0
SslDone = Outcome (Unit {0}) × SslCerts

-- `cleanup`: the characters of the password, the key and the certificate are given back.
pub ssl_clean_up : Option (List ℕ) → Option ℕ → Option ℕ → Outcome (Unit {0}) → SslCerts → SslDone
ssl_clean_up password key cert o s = (
  o,
  record s {
    live = record s.live {
      strings = s.live.strings - counted_string password;
      keys = s.live.keys - counted key;
      certs = s.live.certs - counted cert;
    };
  },
)

-- The last three tests.
pub ssl_use_pair : SslAnswers → Option (List ℕ) → ℕ → ℕ → SslCerts → SslDone
ssl_use_pair a password key cert s =
    if not (a.use_certificate cert)
    then ssl_clean_up password (some key) (some cert) (thrown exception) s
    else if not (a.use_private_key key)
    then ssl_clean_up password (some key) (some cert) (thrown exception)
        (record s { certificate = some cert })
    else ssl_clean_up password (some key) (some cert)
        (if a.check_private_key then returned tt else thrown exception)
        (record s { certificate = some cert; private_key = some key })

pub ssl_with_cert : SslAnswers → Option (List ℕ) → ℕ → SslCerts → Option ℕ × Live → SslDone
ssl_with_cert a password key s (none, l) =
    ssl_clean_up password (some key) none (thrown exception) (record s { live = l })
ssl_with_cert a password key s (some cert, l) =
    ssl_use_pair a password key cert (record s { live = l })

-- Loading the certificate, by `load`, after the key.
pub ssl_with_key :
    SslAnswers → Option (List ℕ) → (Live → Option ℕ × Live) → SslCerts → Option ℕ × Live → SslDone
ssl_with_key a password load s (none, l) =
    ssl_clean_up password none none (thrown exception) (record s { live = l })
ssl_with_key a password load s (some key, l) = ssl_with_cert a password key s (load l)

abbrev pub string_taken : Option (List ℕ) → Live → Live
string_taken password l = record l { strings = l.strings + counted_string password }

-- J2P of a signed `jlong`: only 0 is NULL, and a negative one is an address of the upper half.
abbrev pub j2p : ℤ → Option ℕ
j2p (pos n) = bio_at n
j2p (negsuc n) = some (2 ^ 64 - 1 - n)

-- `setCertificateBio`: the SSL (`true` is NULL), the BIOs as `jlong` and the characters of the password
-- (`none` is NULL). A `jlong` that is not positive counts as missing, also where it is not NULL. The key's BIO is taken before a missing key is replaced by the certificate.
pub ssl_set_certificate_bio :
    Library → Bool → ℤ → ℤ → Option (List ℕ) → Readers (Option ℕ) → SslAnswers → SslCerts → SslDone
ssl_set_certificate_bio boringssl null cert key password r a s = (thrown exception, s)
ssl_set_certificate_bio openssl true cert key password r a s = (thrown null_pointer, s)
ssl_set_certificate_bio openssl false cert key password r a s =
    let l = string_taken password s.live in
    let key_or_cert = if not_positive key then cert else key in
    if not_positive cert || not_positive key_or_cert
    then ssl_clean_up password none none (thrown exception) (record s { live = l })
    else ssl_with_key a password (load_pem_cert_bio r password (j2p cert)) s
        (load_pem_key_bio r password (j2p key) l)

-- `parsePrivateKey`: a key is handed to Java; without one the exception is pending.
pub key_parsed : Option (List ℕ) → Option ℕ × Live → Outcome ℕ × Live
key_parsed password (none, l) =
    (thrown exception, record l { strings = l.strings - counted_string password })
key_parsed password (some key, l) =
    (returned key, record l { strings = l.strings - counted_string password })

pub parse_private_key : ℕ → Option (List ℕ) → Readers (Option ℕ) → Live → Outcome ℕ × Live
parse_private_key bio password r l =
    if bio == 0
    then (thrown null_pointer, l)
    else key_parsed password (load_pem_key_bio r password (bio_at bio) (string_taken password l))
