-- ===== src/Dh.antt =====
-- Parameters of the Diffie-Hellman key exchange: `get_dh`, `tcn_SSL_dh_get_tmp_param` and the callbacks of
-- openssl-dynamic/src/main/c/sslutils.c, the table that ssl.c fills, and `setTmpDHLength` of sslcontext.c.
pub mod Primes
pub mod Table
mod Tests
