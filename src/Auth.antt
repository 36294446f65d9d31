-- ===== src/Auth.antt =====
-- The name of the key exchange and the authentication of a cipher, by which Java validates certificates:
-- `tcn_SSL_cipher_authentication_method` of openssl-dynamic/src/main/c/sslutils.c in its three builds, and
-- `authentication_method` of sslcontext.c. Names are byte strings.
pub mod Agree
mod Tests
use netty_tcnative.Base.{
  ℕ, List, [], ◌∷◌, ◌++◌, Bool, true, false, Option, none, some, if◌then◌else◌, ◌==◌, eq_bytes,
}

-- SSL_TXT_RSA and so on of OpenSSL.
pub record SslTxt : Type 0 where
  pub rsa : List ℕ
  pub dss : List ℕ
  pub ecdsa : List ℕ
  pub dh : List ℕ
  pub ecdh : List ℕ
  pub krb5 : List ℕ

-- "DHE_", "ECDHE_", "_", "_anon", "UNKNOWN" and "GENERIC".
abbrev pub dhe_prefix : List ℕ
dhe_prefix = 68 ∷ 72 ∷ 69 ∷ 95 ∷ []

abbrev pub ecdhe_prefix : List ℕ
ecdhe_prefix = 69 ∷ 67 ∷ 68 ∷ 72 ∷ 69 ∷ 95 ∷ []

abbrev pub underscore : List ℕ
underscore = 95 ∷ []

abbrev pub anon_suffix : List ℕ
anon_suffix = 95 ∷ 97 ∷ 110 ∷ 111 ∷ 110 ∷ []

abbrev pub unknown_auth_method : List ℕ
unknown_auth_method = 85 ∷ 78 ∷ 75 ∷ 78 ∷ 79 ∷ 87 ∷ 78 ∷ []

abbrev pub generic : List ℕ
generic = 71 ∷ 69 ∷ 78 ∷ 69 ∷ 82 ∷ 73 ∷ 67 ∷ []

-- BoringSSL: the name that SSL_CIPHER_get_kx_name gives.
pub by_kx_name : List ℕ → List ℕ
by_kx_name name = if eq_bytes name generic then unknown_auth_method else name

-- OpenSSL from 1.1.0 on: the NIDs of the key exchange and the authentication. `other_kx` and
-- `other_auth` are any other.
pub data KxNid : Type 0 where
  kx_rsa kx_dhe kx_ecdhe kx_any other_kx : KxNid

pub data AuthNid : Type 0 where
  auth_dss auth_rsa auth_ecdsa auth_null other_auth : AuthNid

-- The inner switches.
abbrev pub dhe_by_nid : SslTxt → AuthNid → List ℕ
dhe_by_nid t auth_dss = dhe_prefix ++ t.dss
dhe_by_nid t auth_rsa = dhe_prefix ++ t.rsa
dhe_by_nid t auth_null = t.dh ++ anon_suffix
dhe_by_nid t auth_ecdsa = unknown_auth_method
dhe_by_nid t other_auth = unknown_auth_method

abbrev pub ecdhe_by_nid : SslTxt → AuthNid → List ℕ
ecdhe_by_nid t auth_ecdsa = ecdhe_prefix ++ t.ecdsa
ecdhe_by_nid t auth_rsa = ecdhe_prefix ++ t.rsa
ecdhe_by_nid t auth_null = t.ecdh ++ anon_suffix
ecdhe_by_nid t auth_dss = unknown_auth_method
ecdhe_by_nid t other_auth = unknown_auth_method

pub by_nids : SslTxt → KxNid → AuthNid → List ℕ
by_nids t kx_rsa auth = t.rsa
by_nids t kx_dhe auth = dhe_by_nid t auth
by_nids t kx_ecdhe auth = ecdhe_by_nid t auth
by_nids t kx_any auth = ecdhe_prefix ++ t.rsa
by_nids t other_kx auth = unknown_auth_method

-- Older OpenSSL: the bits `algorithm_mkey` and `algorithm_auth` of a cipher.
abbrev pub dhe_by_bits : SslTxt → ℕ → List ℕ
dhe_by_bits t auth =
    if auth == 2
    then dhe_prefix ++ t.dss
    else if auth == 1
    then dhe_prefix ++ t.rsa
    else if auth == 4
    then t.dh ++ anon_suffix
    else unknown_auth_method

abbrev pub ecdhe_by_bits : SslTxt → ℕ → List ℕ
ecdhe_by_bits t auth =
    if auth == 0x40
    then ecdhe_prefix ++ t.ecdsa
    else if auth == 1
    then ecdhe_prefix ++ t.rsa
    else if auth == 4
    then t.ecdh ++ anon_suffix
    else unknown_auth_method

pub by_bits : SslTxt → ℕ → ℕ → List ℕ
by_bits t mkey auth =
    if mkey == 1
    then t.rsa
    else if mkey == 2
    then t.dh ++ (underscore ++ t.rsa)
    else if mkey == 4
    then t.dh ++ (underscore ++ t.dss)
    else if mkey == 8
    then dhe_by_bits t auth
    else if mkey == 0x10
    then t.krb5
    else if mkey == 0x20
    then t.ecdh ++ (underscore ++ t.rsa)
    else if mkey == 0x40
    then t.ecdh ++ (underscore ++ t.ecdsa)
    else if mkey == 0x80
    then ecdhe_by_bits t auth
    else unknown_auth_method

-- `authentication_method`: `sslv2` is SSL_version(ssl) == SSL2_VERSION, the cipher `none` is NULL, and
-- its name is given by the build's function.
pub authentication_method : {C : Type 0} → SslTxt → (C → List ℕ) → Bool → Option C → List ℕ
authentication_method t name true cipher = t.rsa
authentication_method t name false none = unknown_auth_method
authentication_method t name false (some cipher) = name cipher
