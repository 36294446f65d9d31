-- ===== src/Lib.antt =====
-- A verification library for netty-tcnative: the native C code under openssl-dynamic/src/main/c that
-- connects Java's TLS engine to OpenSSL and BoringSSL.
--
-- The program is a set of JNI calls and callbacks. A call of Java passes pointers as `jlong` values: an
-- SSL_CTX with a `tcn_ssl_ctxt_t` (sslcontext.c, ssl_private.h), an SSL with a `tcn_ssl_state_t` and a
-- BIO (ssl.c). OpenSSL calls back into this code for verification, certificates, private keys, tickets
-- and protocols (sslcontext.c, sslutils.c), and this code calls Java methods, or hands Java a task that
-- it runs on another thread while the handshake is suspended.
--
-- Parts of the library:
-- Base: Boolean tests, byte lists, signed integers, the outcomes of JNI calls. Reading and writing an
-- object out of its bounds is `none` in an `Option`: undefined behaviour.
-- Bio: `struct TCN_bio_bytebuffer` of ssl.c, the BIO between OpenSSL and a Java ByteBuffer, with its
-- internal ring buffer. `tcn_flush_sslbuffer_to_bytebuffer`, `tcn_write_to_bytebuffer` and
-- `tcn_read_from_bytebuffer` are the functions of the same names without the prefix; the two branches
-- of the write are `queue_write` and `sink_write`. The bioXxx calls are bio_xxx. Memory is a function
-- from addresses to bytes. The debug output and the `ctrl` and `gets` methods are left out.
-- Alpn: `select_next_proto` of sslutils.c, its callbacks, and `setNpnProtos0` and `setAlpnProtos0` of
-- sslcontext.c. A pointer into a list is the list of the bytes that may be read from there. The loops
-- are on fuel: the outer one has one round for each byte of the own list and one more, the inner one a
-- round for each byte of the list of the peer, since every round reads a length byte. A read outside of an
-- object ends a run as `overread`.
-- Ticket: `ssl_tlsext_ticket_key_cb`, the key table and `setSessionTicketKeys0` of sslcontext.c. The
-- counters are 32 bits wide and wrap round. The ciphers and the random bytes are the library's.
-- Verify: `tcn_set_verify_config` of sslutils.c, `setVerify` of ssl.c and of sslcontext.c,
-- `setCertVerifyCallback`, `get_certs`, `SSL_cert_verify` and `tcn_SSL_cert_custom_verify` of
-- sslcontext.c, and the Java tasks that they use. The verifier of Java, the result codes of OpenSSL and
-- every allocation are arguments.
-- Handshake: `newSSL`, `getTask` and `freeSSL` of ssl.c, `tcn_ssl_task_new`, `tcn_ssl_task_free`,
-- `certificate_cb` and the private key method of sslcontext.c, with the allocations and the global
-- references that the task slot owns; VerifySlot has what `tcn_SSL_cert_custom_verify` does to the slot,
-- and VerifySlot.Agree compares it with the model of that function in Verify.
-- Callbacks: the slots of `tcn_ssl_ctxt_t` that hold global references, the calls of sslcontext.c that
-- fill them (setCertificateCallback, setSSLSessionCache, addCertificateCompressionAlgorithm0 and so on),
-- the part of `ssl_context_cleanup` that empties them, `ssl_servername_cb`, `tcn_new_session_cb`,
-- `tcn_get_session_cb` and `keylog_cb`.
-- Certificate: the password callback and the loaders of keys and certificates (Password, Load), and
-- `setCertificate` and `setCertificateBio` (Set), with the strings, passwords, BIOs, keys and
-- certificates that they own. What OpenSSL reads from a file or a BIO is an argument that is given the
-- callback; a BIO is 0 when it is NULL. Connection has `setCertificateBio` and `parsePrivateKey` of ssl.c.
-- Chain: `SSL_CTX_setup_certs` and `tcn_SSL_use_certificate_chain_bio` of sslutils.c in both libraries,
-- and the calls that use them (Calls). A BIO is the list of its certificates with the error that ends
-- them; the error queue is a list from its oldest error.
-- Compression: cert_compress.c. The object of an algorithm is the slot of Callbacks.
-- Credential: the setters of sslcredential.c, `upRef` and `free`.
-- Context: `make` of sslcontext.c for every build and `free`, with the versions that a protocol mask of
-- Java allows, TLSv1.3 included. A mask is given by its bits; what the library answers to an
-- allocation is an argument.
-- Dh: the primes of `get_dh`, the table of temporary parameters that ssl.c fills, the callbacks that
-- choose from it, and `setTmpDHLength` of sslcontext.c.
-- Auth: `tcn_SSL_cipher_authentication_method` of sslutils.c in its three builds. The texts SSL_TXT_RSA
-- and so on are OpenSSL's and are arguments.
-- Material: `parseX509Chain`, `freeX509Chain`, `setKeyMaterial` and `setKeyMaterialClientSide` (Client) of
-- ssl.c, with the certificates, keys and stacks that they own.
-- Peer: `getPeerCertChain` of ssl.c, and `keyTypes`, `principalBytes` and `cert_requested` of sslcontext.c,
-- which hands `certOut` and `keyOut` of Material to a callback of Java. Stacks are lists of certificates or
-- names; their encodings are arguments.
--
-- Each component has its definitions in the file of its name, or in the modules named above; its other
-- child modules have the proofs, and its module Tests has the theorems at concrete arguments and runs of the code.
--
-- Locks are not modelled: a call is one step. TCN_ASSERT aborts in debug builds and is empty in others.
-- What a library or the JNI answers is an argument of the definition that asks. Not modelled are the getters and setters of ssl.c, sslsession.c and sslcontext.c
-- that hand one value to the library, and the set-up of the library: native
-- methods by name, constants, exceptions, and buffers (jnilib.c, native_constants.c, error.c, bb.c).
pub mod Base
pub mod Bio
pub mod Alpn
pub mod Ticket
pub mod Verify
pub mod Handshake
pub mod Callbacks
pub mod Certificate
pub mod Chain
pub mod Compression
pub mod Credential
pub mod Context
pub mod Dh
pub mod Auth
pub mod Material
pub mod Peer
