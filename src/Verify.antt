-- ===== src/Verify.antt =====
-- Verification of the peer's certificates: the verify mode (`tcn_set_verify_config` of
-- openssl-dynamic/src/main/c/sslutils.c, `SSL.setVerify` of ssl.c, `SSLContext.setVerify` and
-- `setCertVerifyCallback` of sslcontext.c). The children have the certificates and the callbacks.
pub mod Mode
pub mod Install
pub mod Certs
pub mod Callback
mod Tests
use netty_tcnative.Base.{
  ℕ, ◌+◌, ◌-◌, Bool, true, false, not, Option, none, some, ◌==◌, if◌then◌else◌,
}
use netty_tcnative.Base.Int.{ℤ, pos, negsuc}
use netty_tcnative.Base.Jni.{
  Outcome, returned, thrown, null_pointer, illegal_argument, out_of_memory,
}

-- SSL_VERIFY_NONE, SSL_VERIFY_PEER, and SSL_VERIFY_PEER | SSL_VERIFY_FAIL_IF_NO_PEER_CERT.
pub data PeerVerify : Type 0 where
  verify_none verify_peer verify_peer_required : PeerVerify

-- SSL_CVERIFY_NONE, SSL_CVERIFY_OPTIONAL and SSL_CVERIFY_REQUIRED. SSL_CVERIFY_IGNORED is -1.
abbrev pub cverify_none : ℕ
cverify_none = 0

abbrev pub cverify_optional : ℕ
cverify_optional = 1

abbrev pub cverify_required : ℕ
cverify_required = 2

-- `tcn_ssl_verify_config_t`. Only values that are not negative are stored.
pub record VerifyConfig : Type 0 where
  pub verify_depth : ℕ
  pub verify_mode : ℕ

-- The guard `depth >= 0`.
abbrev with_depth : VerifyConfig → ℤ → VerifyConfig
with_depth c (pos depth) = record c { verify_depth = depth }
with_depth c (negsuc n) = c

-- The inner switch, on the stored mode.
abbrev pub stored_mode : ℕ → PeerVerify
stored_mode mode =
    if mode == cverify_none
    then verify_none
    else if mode == cverify_optional
    then verify_peer
    else verify_peer_required

-- The outer switch, on the mode that is asked for.
pub set_mode : VerifyConfig → ℤ → PeerVerify × VerifyConfig
set_mode c (negsuc n) =
    if n == 0
    then (stored_mode c.verify_mode, c)
    else (verify_peer_required, record c { verify_mode = cverify_required })
set_mode c (pos mode) =
    if mode == cverify_none
    then (verify_none, record c { verify_mode = cverify_none })
    else if mode == cverify_optional
    then (verify_peer, record c { verify_mode = cverify_optional })
    else (verify_peer_required, record c { verify_mode = cverify_required })

-- `tcn_set_verify_config`: what it returns and the new configuration.
pub set_verify_config : VerifyConfig → ℤ → ℤ → PeerVerify × VerifyConfig
unfolding set_mode
set_verify_config c mode depth = set_mode (with_depth c depth) mode

-- Which library the code is built against: the branches of the `#if defined(OPENSSL_IS_BORINGSSL)`.
pub data Library : Type 0 where
  openssl boringssl : Library

-- What an SSL carries: the configuration of its state, and the mode and the depth in OpenSSL.
-- BoringSSL is not given the depth.
pub record SslVerify : Type 0 where
  pub config : VerifyConfig
  pub installed : PeerVerify
  pub installed_depth : ℕ

-- `SSL.setVerify`.
pub ssl_set_verify : Library → Bool → ℤ → ℤ → SslVerify → Outcome (Unit {0}) × SslVerify
ssl_set_verify library true level depth s = (thrown null_pointer, s)
ssl_set_verify openssl false level depth s =
    let r : PeerVerify × VerifyConfig = set_verify_config s.config level depth in
    (returned tt, record { config = r.1; installed = r.0; installed_depth = r.1.verify_depth })
ssl_set_verify boringssl false level depth s =
    let r : PeerVerify × VerifyConfig = set_verify_config s.config level depth in
    (returned tt, record s { config = r.1; installed = r.0 })

-- The fields of `tcn_ssl_ctxt_t` and of its SSL_CTX: the verifier (a global reference) if there is
-- one, whether the callback of this library is installed, and the live global references.
pub record ContextVerify : Type 0 where
  pub config : VerifyConfig
  pub verifier : Option ℕ
  pub installed : PeerVerify
  pub installed_depth : ℕ
  pub callback : Bool
  pub global_refs : ℕ

-- What `SSLContext.setVerify` stores in the SSL_CTX: with BoringSSL the mode goes in with the
-- callback, and only if there is a verifier.
pub install_mode : Library → Option ℕ → PeerVerify × VerifyConfig → ContextVerify → ContextVerify
install_mode openssl verifier r c = record c {
  config = r.1;
  installed = r.0;
  installed_depth = r.1.verify_depth;
}
install_mode boringssl none r c = record c { config = r.1 }
install_mode boringssl (some v) r c = record c { config = r.1; installed = r.0; callback = true }

-- `SSLContext.setVerify`.
pub context_set_verify : Library → Bool → ℤ → ℤ → ContextVerify → Outcome (Unit {0}) × ContextVerify
context_set_verify library true level depth c = (thrown null_pointer, c)
context_set_verify library false level depth c =
    (returned tt, install_mode library c.verifier (set_verify_config c.config level depth) c)

-- DeleteGlobalRef of the old verifier, if there is one.
abbrev pub release : Option ℕ → ℕ → ℕ
release none refs = refs
release (some v) refs = refs - 1

-- What `setCertVerifyCallback` stores in the SSL_CTX for a verifier.
pub install_verifier : Library → ℕ → ContextVerify → ContextVerify
install_verifier openssl v c = record c { verifier = some v; callback = true }
install_verifier boringssl v c =
    let r : PeerVerify × VerifyConfig =
      set_verify_config c.config (pos c.config.verify_mode) (pos c.config.verify_depth) in
    record c { verifier = some v; config = r.1; installed = r.0; callback = true }

pub remove_verifier : Library → ContextVerify → ContextVerify
remove_verifier openssl c = record c { verifier = none; callback = false }
remove_verifier boringssl c = record c {
  verifier = none;
  installed = verify_none;
  callback = false;
}

-- `setCertVerifyCallback`. `has_method` and `new_global_ref` say whether the two JNI calls succeed.
pub set_cert_verify_callback :
    Library → Bool → Option ℕ → Bool → Bool → ContextVerify → Outcome (Unit {0}) × ContextVerify
set_cert_verify_callback library true verifier has_method new_global_ref c =
    (thrown null_pointer, c)
set_cert_verify_callback library false none has_method new_global_ref c = (
  returned tt,
  record (remove_verifier library c) { global_refs = release c.verifier c.global_refs },
)
set_cert_verify_callback library false (some v) has_method new_global_ref c =
    if not has_method
    then (thrown illegal_argument, c)
    else if not new_global_ref
    then (thrown out_of_memory, c)
    else (
      returned tt,
      record (install_verifier library v c) {
        global_refs = release c.verifier (c.global_refs + 1);
      },
    )
