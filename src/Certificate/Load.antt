-- ===== src/Certificate/Load.antt =====
-- Loading of keys and certificates: `load_pem_key`, `load_pem_cert` and `ssl_load_pkcs12` of
-- openssl-dynamic/src/main/c/sslcontext.c, and `tcn_load_pem_cert_bio` and `tcn_load_pem_key_bio` of
-- sslutils.c.
pub mod Balance
use netty_tcnative.Base.{
  ℕ, ◌+◌, ◌-◌, ◌∷◌, [], List, Bool, Option, none, some, ◌>>=◌, not, if◌then◌else◌, ◌||◌,
}
use netty_tcnative.Certificate.Password.{password_callback}

-- What the functions own: strings of GetStringUTFChars, passwords of strdup, and objects of OpenSSL.
pub record Live : Type 0 where
  pub strings : ℕ
  pub passwords : ℕ
  pub bios : ℕ
  pub keys : ℕ
  pub certs : ℕ
  pub pkcs12s : ℕ

-- The callback as OpenSSL gets it, with `c->password` as its user data.
abbrev pub Callback : Type 0
Callback = Option (List ℕ) → ℕ → Option (ℕ × Option (List ℕ))

-- BIO_new(BIO_s_file()) and BIO_read_filename.
pub record FileAnswers : Type 0 where
  pub bio_new : Bool
  pub read_filename : List ℕ → Bool

-- The readers of OpenSSL on a BIO (`none` is NULL): each gives an object or NULL.
pub record Readers (B : Type 0) : Type 0 where
  pub read_private_key : B → Callback → Option ℕ
  pub read_x509_aux : B → Callback → Option ℕ
  pub no_start_line : B → Bool
  pub d2i_x509 : B → Option ℕ

abbrev pub counted : Option ℕ → ℕ
counted none = 0
counted (some a) = 1

-- `tcn_load_pem_key_bio`.
unfoldable pub load_pem_key_bio :
    {B : Type 0} → Readers B → Option (List ℕ) → B → Live → Option ℕ × Live
load_pem_key_bio r password bio l =
    let key = r.read_private_key bio (λ buf bufsiz. password_callback buf bufsiz password) in
    (key, record l { keys = l.keys + counted key })

-- The second try of a certificate, as DER, when PEM found no start line.
unfoldable pub or_der : {B : Type 0} → Readers B → B → Option ℕ → Option ℕ
or_der r bio none = if r.no_start_line bio then r.d2i_x509 bio else none
or_der r bio (some cert) = some cert

-- `tcn_load_pem_cert_bio`.
unfoldable pub load_pem_cert_bio :
    {B : Type 0} → Readers B → Option (List ℕ) → B → Live → Option ℕ × Live
load_pem_cert_bio r password bio l =
    let cert =
      or_der r bio (r.read_x509_aux bio (λ buf bufsiz. password_callback buf bufsiz password)) in
    (cert, record l { certs = l.certs + counted cert })

abbrev pub bio_opened : Live → Live
bio_opened l = record l { bios = l.bios + 1 }

abbrev pub bio_closed : {A : Type 0} → A × Live → A × Live
bio_closed (a, l) = (a, record l { bios = l.bios - 1 })

-- `load_pem_key`: a file is opened, read and closed. The file name is the BIO that is read.
pub load_pem_key :
    FileAnswers → Readers (List ℕ) → Option (List ℕ) → List ℕ → Live → Option ℕ × Live
load_pem_key f r password file l =
    if not f.bio_new
    then (none, l)
    else if not (f.read_filename file)
    then bio_closed (none, bio_opened l)
    else bio_closed (load_pem_key_bio r password file (bio_opened l))

-- `load_pem_cert`.
pub load_pem_cert :
    FileAnswers → Readers (List ℕ) → Option (List ℕ) → List ℕ → Live → Option ℕ × Live
load_pem_cert f r password file l =
    if not f.bio_new
    then (none, l)
    else if not (f.read_filename file)
    then bio_closed (none, bio_opened l)
    else bio_closed (load_pem_cert_bio r password file (bio_opened l))

-- What OpenSSL answers on a PKCS12 file: `mac` is PKCS12_verify_mac on a password (`none` is NULL) and
-- its length, `parse` PKCS12_parse on the bytes at `pass`, with the key and the certificate it gives.
pub record Pkcs12Answers : Type 0 where
  pub d2i : Bool
  pub mac : Option (List ℕ) → ℕ → Bool
  pub parse : List ℕ → Option (Option ℕ × Option ℕ)

abbrev pub pem_bufsize : ℕ
pem_bufsize = 1024

abbrev pub check_mac : Pkcs12Answers → ℕ × Option (List ℕ) → Option (List ℕ)
check_mac a (len, none) = none
check_mac a (len, some buf) = if a.mac (some buf) len then some buf else none

-- The choice of the password in `ssl_load_pkcs12`: `some none` is a wrong one. `stack` is what the
-- array `buff` holds at first. The length that the callback returns is never negative.
pub pkcs12_password : Pkcs12Answers → List ℕ → Option (List ℕ) → Option (Option (List ℕ))
pkcs12_password a stack password =
    if a.mac (some (0 ∷ [])) 0 || a.mac none 0
    then some (some (0 ∷ []))
    else password_callback (some stack) pem_bufsize password >>= λ r. some (check_mac a r)

-- A pair of a key and a certificate, or NULLs and a failure.
abbrev pub Pair : Type 0
Pair = Option (Option ℕ × Option ℕ)

abbrev pub parse_with : Pkcs12Answers → Option (List ℕ) → Pair
parse_with a none = none
parse_with a (some pass) = a.parse pass

abbrev pub counted_pair : (Option ℕ → Option ℕ → ℕ) → Pair → ℕ
counted_pair f none = 0
counted_pair f (some (key, cert)) = f key cert

abbrev pub with_pair : Pair → Live → Pair × Live
with_pair p l = (
  p,
  record l {
    keys = l.keys + counted_pair (λ key cert. counted key) p;
    certs = l.certs + counted_pair (λ key cert. counted cert) p;
  },
)

abbrev pub pkcs12_freed : {A : Type 0} → A × Live → A × Live
pkcs12_freed (a, l) = (a, record l { pkcs12s = l.pkcs12s - 1 })

-- `ssl_load_pkcs12`, without a place for the other certificates.
pub load_pkcs12 :
    FileAnswers → Pkcs12Answers → List ℕ → Option (List ℕ) → List ℕ → Live → Option (Pair × Live)
load_pkcs12 f a stack password file l =
    if not f.bio_new
    then some (none, l)
    else if not (f.read_filename file)
    then some (bio_closed (none, bio_opened l))
    else if not a.d2i
    then some (bio_closed (none, bio_opened l))
    else pkcs12_password a stack password >>= λ pass. some (
        bio_closed (
          pkcs12_freed
            (with_pair (parse_with a pass) (record (bio_opened l) { pkcs12s = l.pkcs12s + 1 }))))
