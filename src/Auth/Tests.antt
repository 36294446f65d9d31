-- ===== src/Auth/Tests.antt =====
-- The agreement of the builds for a cipher with ECDHE and ECDSA.
use netty_tcnative.Base.{◌≡◌, ◌≢◌, ◌++◌, [], ◌∷◌}
use netty_tcnative.Auth.{
  SslTxt, ecdhe_prefix, generic, unknown_auth_method, by_kx_name, kx_ecdhe, kx_any, auth_ecdsa,
  by_nids, by_bits,
}
use netty_tcnative.Auth.Agree.{IsKnown, mkey_of, auth_of, by_bits-by_nids}

-- The texts, given by their first letters.
abbrev txt : SslTxt
txt = record {
  rsa = 82 ∷ [];
  dss = 83 ∷ [];
  ecdsa = 69 ∷ [];
  dh = 68 ∷ [];
  ecdh = 67 ∷ [];
  krb5 = 75 ∷ [];
}

differ : kx_ecdhe ≢ kx_any
differ e = cc

by_bits-by_nids_example :
    (by_bits txt (mkey_of kx_ecdhe) (auth_of auth_ecdsa) ≡ by_nids txt kx_ecdhe auth_ecdsa)
    × IsKnown txt (by_nids txt kx_ecdhe auth_ecdsa)
    × (by_nids txt kx_any auth_ecdsa ≡ ecdhe_prefix ++ txt.rsa)
    × (by_kx_name generic ≡ unknown_auth_method)
by_bits-by_nids_example = by_bits-by_nids txt kx_ecdhe auth_ecdsa differ
