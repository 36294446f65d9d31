-- ===== src/Chain/Calls.antt =====
-- The calls that load chains: `tcn_SSL_CTX_use_certificate_chain` of
-- openssl-dynamic/src/main/c/sslutils.c, `setCertificateChainFile`, `setCertificateChainBio` and
-- `setCACertificateBio` of sslcontext.c.
use netty_tcnative.Base.{ℕ, ◌+◌, ◌-◌, List, Bool, true, false, not, ◌&&◌, if◌then◌else◌}
use netty_tcnative.Base.Int.{ℤ, not_positive}
use netty_tcnative.Base.Jni.{Outcome, returned, thrown, exception, null_pointer}
use netty_tcnative.Callbacks.{Library, openssl, boringssl}
use netty_tcnative.Chain.{
  ChainState, ChainAnswers, PemError, minus_one, ctx_use_certificate_chain_bio,
  ctx_use_client_ca_bio,
}

abbrev pub bio_closed : ℤ × ChainState → ℤ × ChainState
bio_closed (n, s) = (n, record s { live_bios = s.live_bios - 1 })

-- `tcn_SSL_CTX_use_certificate_chain`: BIO_new and BIO_read_filename come first.
pub ctx_use_certificate_chain :
    Library → Bool → Bool → Bool → ChainAnswers → List ℕ → PemError → ChainState → ℤ × ChainState
ctx_use_certificate_chain library bio_new read_filename skipfirst a xs e s =
    let opened = record s { live_bios = s.live_bios + 1 } in
    if not bio_new
    then (minus_one, s)
    else if not read_filename
    then bio_closed (minus_one, opened)
    else bio_closed (ctx_use_certificate_chain_bio library skipfirst a xs e opened)

-- `n > 0 ? JNI_TRUE : JNI_FALSE`.
abbrev pub answer_positive : ℤ × ChainState → Outcome Bool × ChainState
answer_positive (n, s) = (returned (not (not_positive n)), s)

-- `setCertificateChainFile`, where `file` is what GetStringUTFChars gives.
pub set_certificate_chain_file :
    Library
    → Bool
    → Bool
    → Bool
    → Bool
    → Bool
    → ChainAnswers
    → List ℕ
    → PemError
    → ChainState
    → Outcome Bool × ChainState
set_certificate_chain_file boringssl null_ctx file bio_new read_filename skipfirst a xs e s =
    (thrown exception, s)
set_certificate_chain_file openssl true file bio_new read_filename skipfirst a xs e s =
    (thrown null_pointer, s)
set_certificate_chain_file openssl false false bio_new read_filename skipfirst a xs e s =
    (returned false, s)
set_certificate_chain_file openssl false true bio_new read_filename skipfirst a xs e s =
    answer_positive (ctx_use_certificate_chain openssl bio_new read_filename skipfirst a xs e s)

-- `setCertificateChainBio`.
pub set_certificate_chain_bio :
    Library
    → Bool
    → Bool
    → Bool
    → ChainAnswers
    → List ℕ
    → PemError
    → ChainState
    → Outcome Bool × ChainState
set_certificate_chain_bio boringssl null_ctx bio skipfirst a xs e s = (thrown exception, s)
set_certificate_chain_bio openssl true bio skipfirst a xs e s = (thrown null_pointer, s)
set_certificate_chain_bio openssl false false skipfirst a xs e s = (returned false, s)
set_certificate_chain_bio openssl false true skipfirst a xs e s =
    answer_positive (ctx_use_certificate_chain_bio openssl skipfirst a xs e s)

-- `setCACertificateBio`: `client` is whether the mode of the context is SSL_MODE_CLIENT.
pub set_ca_certificate_bio :
    Library
    → Bool
    → Bool
    → Bool
    → ChainAnswers
    → List ℕ
    → PemError
    → ChainState
    → Outcome Bool × ChainState
set_ca_certificate_bio library true client bio a xs e s = (thrown null_pointer, s)
set_ca_certificate_bio library false client bio a xs e s =
    if bio && not client
    then answer_positive (ctx_use_client_ca_bio library a xs e s)
    else (returned false, s)
