-- ===== src/Certificate.antt =====
-- Certificates, keys and their password: `setCertificate` and `setCertificateBio` of
-- openssl-dynamic/src/main/c/sslcontext.c with the functions that load files, `setCertificateBio` and
-- `parsePrivateKey` of ssl.c, and `tcn_SSL_password_callback` and the functions that load from a BIO of
-- sslutils.c.
pub mod Password
pub mod Connection
pub mod Load
pub mod Set
mod Tests
