-- ===== src/Chain.antt =====
-- Loading a chain of certificates: `SSL_CTX_setup_certs`, `tcn_SSL_use_certificate_chain_bio` and
-- `tcn_SSL_CTX_use_certificate_chain` of openssl-dynamic/src/main/c/sslutils.c, the last of them in Calls.
pub mod Calls
pub mod Owned
pub mod Result
pub mod Names
mod Tests
use netty_tcnative.Base.{
  ℕ, suc, ◌+◌, ◌-◌, ◌∷◌, [], ◌++◌, List, Bool, true, false, Option, none, some, not, ◌&&◌, length,
  if◌then◌else◌,
}
use netty_tcnative.Base.Int.{ℤ, pos, negsuc, not_positive}
use netty_tcnative.Base.Jni.{Outcome, returned, thrown, exception, null_pointer}
use netty_tcnative.Callbacks.{Library, openssl, boringssl}

-- An error of OpenSSL: PEM_R_NO_START_LINE of the PEM library, which is the end of the input, or any
-- other.
pub data PemError : Type 0 where
  no_start_line other : PemError

-- What the loaders work on: the error queue from its oldest error, the certificates that the SSL_CTX
-- holds (a name of a client CA is given by its certificate) and those of the SSL, and what the loaders
-- own: X509 objects, files, and in BoringSSL stacks of names, their buffers and the bytes of
-- i2d_X509_NAME.
pub record ChainState : Type 0 where
  pub errors : List PemError
  pub client_cas : List ℕ
  pub extra_chain : List ℕ
  pub ssl_chain : List ℕ
  pub live_x509 : ℕ
  pub live_bios : ℕ
  pub live_stacks : ℕ
  pub live_buffers : ℕ
  pub live_encodings : ℕ

-- What the library answers: whether SSL_CTX_add_client_CA, SSL_CTX_add_extra_chain_cert or
-- SSL_add0_chain_cert takes a certificate; sk_CRYPTO_BUFFER_new_null; i2d_X509_NAME; CRYPTO_BUFFER_new;
-- sk_CRYPTO_BUFFER_push on a stack. A push on NULL fails.
pub record ChainAnswers : Type 0 where
  pub add : ℕ → Bool
  pub new_stack : Bool
  pub encode_name : ℕ → Bool
  pub new_buffer : ℕ → Bool
  pub push : ℕ → Bool

-- A loop that gave up, or the number of certificates with the stack of names.
pub data Loop : Type 0 where
  gave_up : ChainState → Loop
  loaded : ℕ → List ℕ → ChainState → Loop

-- The read that finds no further certificate.
abbrev pub ended : PemError → ChainState → ChainState
ended e s = record s { errors = s.errors ++ (e ∷ []) }

-- PEM_read_bio_X509 and X509_free.
abbrev pub new_x509 : ChainState → ChainState
new_x509 s = record s { live_x509 = s.live_x509 + 1 }

abbrev pub free_x509 : ChainState → ChainState
free_x509 s = record s { live_x509 = s.live_x509 - 1 }

-- The places of a certificate: the client CAs of the SSL_CTX, which copy its name, and the two chains,
-- which take it over.
pub data Place : Type 0 where
  in_client_cas in_extra_chain in_ssl_chain : Place

abbrev pub keep : Place → ℕ → ChainState → ChainState
keep in_client_cas x s = record s { client_cas = s.client_cas ++ (x ∷ []) }
keep in_extra_chain x s = record s { extra_chain = s.extra_chain ++ (x ∷ []) }
keep in_ssl_chain x s = record s { ssl_chain = s.ssl_chain ++ (x ∷ []) }

-- The three loops that add certificates. Each certificate is either freed or taken over.
pub load_certs : Place → ChainAnswers → List ℕ → PemError → ℕ → ChainState → Loop
load_certs p a [] e n s = loaded n [] (ended e s)
load_certs p a (x ∷ xs) e n s =
    let rest = load_certs p a xs e (n + 1) (keep p x (free_x509 (new_x509 s))) in
    if a.add x then rest else gave_up (free_x509 (new_x509 s))

-- A stack is made or not.
abbrev pub counted : Bool → ℕ
counted false = 0
counted true = 1

-- sk_CRYPTO_BUFFER_pop_free of the stack, if there is one, with its buffers.
abbrev pub pop_free : Bool → List ℕ → ChainState → ChainState
pop_free stack names s = record s {
  live_stacks = s.live_stacks - counted stack;
  live_buffers = s.live_buffers - length names;
}

abbrev pub new_buffer : ChainState → ChainState
new_buffer s = record s { live_buffers = s.live_buffers + 1 }

abbrev pub free_buffer : ChainState → ChainState
free_buffer s = record s { live_buffers = s.live_buffers - 1 }

-- i2d_X509_NAME and OPENSSL_free of its bytes.
abbrev pub new_encoding : ChainState → ChainState
new_encoding s = record s { live_encodings = s.live_encodings + 1 }

abbrev pub free_encoding : ChainState → ChainState
free_encoding s = record s { live_encodings = s.live_encodings - 1 }

-- The loop of BoringSSL, which collects names. A buffer that is not pushed is freed.
pub load_names : ChainAnswers → List ℕ → PemError → List ℕ → ℕ → ChainState → Loop
load_names a [] e names n s = loaded n names (ended e s)
load_names a (x ∷ xs) e names n s =
    let read = new_x509 s in
    let copied = new_buffer (new_encoding read) in
    let rest = load_names a xs e (names ++ (x ∷ [])) (n + 1) (free_x509 (free_encoding copied)) in
    if not (a.encode_name x)
    then gave_up (free_x509 (pop_free a.new_stack names read))
    else if not (a.new_buffer x)
    then gave_up (free_x509 (pop_free a.new_stack names (free_encoding (new_encoding read))))
    else if not (a.new_stack && a.push x)
    then gave_up (free_x509 (free_buffer (pop_free a.new_stack names (free_encoding copied))))
    else rest

-- SSL_CTX_set0_client_CAs: the SSL_CTX takes over the stack, if there is one, with its buffers.
pub set0_client_cas : Bool → Loop → Loop
set0_client_cas stack (gave_up s) = gave_up s
set0_client_cas stack (loaded n names s) =
    loaded n names (record (pop_free stack names s) { client_cas = names })

abbrev pub minus_one : ℤ
minus_one = negsuc 0

-- "Make sure that only the error is just an EOF": ERR_peek_error looks at the oldest error.
pub check_errors : List PemError → ℕ → ChainState → ℤ × ChainState
check_errors [] n s = (pos n, s)
check_errors (no_start_line ∷ es) n s = (pos n, record s { errors = [] })
check_errors (other ∷ es) n s = (minus_one, s)

pub finish_load : Loop → ℤ × ChainState
finish_load (gave_up s) = (minus_one, s)
finish_load (loaded n names s) = check_errors s.errors n s

-- The two halves of `SSL_CTX_setup_certs` after the skipped certificate.
pub load_rest : Library → Bool → ChainAnswers → List ℕ → PemError → ChainState → ℤ × ChainState
load_rest openssl true a xs e s = finish_load (load_certs in_client_cas a xs e 0 s)
load_rest boringssl true a xs e s =
    finish_load (set0_client_cas a.new_stack (load_names a xs e [] 0 s))
load_rest openssl false a xs e s =
    finish_load (load_certs in_extra_chain a xs e 0 (record s { extra_chain = [] }))
load_rest boringssl false a xs e s = (minus_one, s)

-- "Optionally skip a leading server certificate."
pub skip_first :
    Bool → List ℕ → PemError → (List ℕ → ChainState → ℤ × ChainState) → ChainState → ℤ × ChainState
skip_first false xs e next s = next xs s
skip_first true [] e next s = (minus_one, ended e s)
skip_first true (x ∷ xs) e next s = next xs (free_x509 (new_x509 s))

-- In BoringSSL builds `names` is allocated on entry.
abbrev pub enter : Library → ChainAnswers → ChainState → ChainState
enter openssl a s = s
enter boringssl a s = record s { live_stacks = s.live_stacks + counted a.new_stack }

-- `SSL_CTX_setup_certs` on a BIO with the certificates `xs`, after which reading fails with `e`.
pub setup_certs :
    Library → Bool → Bool → ChainAnswers → List ℕ → PemError → ChainState → ℤ × ChainState
setup_certs library skipfirst ca a xs e s =
    skip_first skipfirst xs e (λ ys t. load_rest library ca a ys e t) (enter library a s)

-- `tcn_SSL_CTX_use_certificate_chain_bio` and `tcn_SSL_CTX_use_client_CA_bio`.
abbrev pub ctx_use_certificate_chain_bio :
    Library → Bool → ChainAnswers → List ℕ → PemError → ChainState → ℤ × ChainState
ctx_use_certificate_chain_bio library skipfirst a xs e s =
    setup_certs library skipfirst false a xs e s

abbrev pub ctx_use_client_ca_bio :
    Library → ChainAnswers → List ℕ → PemError → ChainState → ℤ × ChainState
ctx_use_client_ca_bio library a xs e s = setup_certs library false true a xs e s

-- `tcn_SSL_use_certificate_chain_bio`, with a library that supports it.
pub ssl_use_certificate_chain_bio :
    Bool → ChainAnswers → List ℕ → PemError → ChainState → ℤ × ChainState
ssl_use_certificate_chain_bio skipfirst a xs e s =
    skip_first skipfirst xs e (λ ys t. finish_load (load_certs in_ssl_chain a ys e 0 t)) s
