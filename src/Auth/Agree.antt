-- ===== src/Auth/Agree.antt =====
-- The builds agree on the ciphers that they all know.
use netty_tcnative.Base.{ℕ, ◌≡◌, ◌≢◌, refl, List, ◌++◌}
use netty_tcnative.Auth.{
  SslTxt, generic, unknown_auth_method, by_kx_name, KxNid, kx_rsa, kx_dhe, kx_ecdhe, kx_any,
  other_kx, AuthNid, auth_dss, auth_rsa, auth_ecdsa, auth_null, other_auth, by_nids, by_bits,
  dhe_prefix, ecdhe_prefix, anon_suffix,
}

-- The bits of older OpenSSL for a key exchange and an authentication of OpenSSL 1.1.0: SSL_kRSA,
-- SSL_kEDH and SSL_kEECDH, and SSL_aDSS, SSL_aRSA, SSL_aECDSA and SSL_aNULL; SSL_kPSK and SSL_aPSK stand
-- for the others.
abbrev pub mkey_of : KxNid → ℕ
mkey_of kx_rsa = 1
mkey_of kx_dhe = 8
mkey_of kx_ecdhe = 0x80
mkey_of kx_any = 0x100
mkey_of other_kx = 0x100

abbrev pub auth_of : AuthNid → ℕ
auth_of auth_dss = 2
auth_of auth_rsa = 1
auth_of auth_ecdsa = 0x40
auth_of auth_null = 4
auth_of other_auth = 0x80

-- The names that Java may get from OpenSSL.
pub data IsKnown (t : SslTxt) : List ℕ → Type 0 where
  rsa : IsKnown t t.rsa
  dhe_dss : IsKnown t (dhe_prefix ++ t.dss)
  dhe_rsa : IsKnown t (dhe_prefix ++ t.rsa)
  dh_anon : IsKnown t (t.dh ++ anon_suffix)
  ecdhe_ecdsa : IsKnown t (ecdhe_prefix ++ t.ecdsa)
  ecdhe_rsa : IsKnown t (ecdhe_prefix ++ t.rsa)
  ecdh_anon : IsKnown t (t.ecdh ++ anon_suffix)
  unknown : IsKnown t unknown_auth_method

by_nids-IsKnown : (t : SslTxt) (kx : KxNid) (auth : AuthNid) → IsKnown t (by_nids t kx auth)
unfolding by_nids
by_nids-IsKnown t kx_rsa auth = rsa
by_nids-IsKnown t kx_dhe auth_dss = dhe_dss
by_nids-IsKnown t kx_dhe auth_rsa = dhe_rsa
by_nids-IsKnown t kx_dhe auth_ecdsa = unknown
by_nids-IsKnown t kx_dhe auth_null = dh_anon
by_nids-IsKnown t kx_dhe other_auth = unknown
by_nids-IsKnown t kx_ecdhe auth_dss = unknown
by_nids-IsKnown t kx_ecdhe auth_rsa = ecdhe_rsa
by_nids-IsKnown t kx_ecdhe auth_ecdsa = ecdhe_ecdsa
by_nids-IsKnown t kx_ecdhe auth_null = ecdh_anon
by_nids-IsKnown t kx_ecdhe other_auth = unknown
by_nids-IsKnown t kx_any auth = ecdhe_rsa
by_nids-IsKnown t other_kx auth = unknown

by_bits-nids :
    (t : SslTxt) (kx : KxNid) (auth : AuthNid)
    → kx ≢ kx_any
    → by_bits t (mkey_of kx) (auth_of auth) ≡ by_nids t kx auth
unfolding by_nids by_bits
by_bits-nids t kx_rsa auth h = refl
by_bits-nids t kx_dhe auth_dss h = refl
by_bits-nids t kx_dhe auth_rsa h = refl
by_bits-nids t kx_dhe auth_ecdsa h = refl
by_bits-nids t kx_dhe auth_null h = refl
by_bits-nids t kx_dhe other_auth h = refl
by_bits-nids t kx_ecdhe auth_dss h = refl
by_bits-nids t kx_ecdhe auth_rsa h = refl
by_bits-nids t kx_ecdhe auth_ecdsa h = refl
by_bits-nids t kx_ecdhe auth_null h = refl
by_bits-nids t kx_ecdhe other_auth h = refl
by_bits-nids t kx_any auth h = absurd (h refl)
by_bits-nids t other_kx auth h = refl

-- For a cipher of a key exchange and an authentication that both have, other than a cipher of TLSv1.3,
-- older OpenSSL names the same method as OpenSSL from 1.1.0 on, which names one of seven methods or
-- UNKNOWN for any cipher. A TLSv1.3 cipher is named ECDHE_RSA by OpenSSL and UNKNOWN by BoringSSL.
pub by_bits-by_nids :
    (t : SslTxt) (kx : KxNid) (auth : AuthNid)
    → kx ≢ kx_any
    → (by_bits t (mkey_of kx) (auth_of auth) ≡ by_nids t kx auth)
      × IsKnown t (by_nids t kx auth)
      × (by_nids t kx_any auth ≡ ecdhe_prefix ++ t.rsa)
      × (by_kx_name generic ≡ unknown_auth_method)
unfolding by_nids by_kx_name
by_bits-by_nids t kx auth h = (by_bits-nids t kx auth h, by_nids-IsKnown t kx auth, refl, refl)
