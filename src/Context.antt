-- ===== src/Context.antt =====
-- Contexts: `make` and `free` of openssl-dynamic/src/main/c/sslcontext.c. A `jint` of protocols is given
-- by its bits.
pub mod Protocols
pub mod Life
mod Tests
use netty_tcnative.Base.{
  ℕ, ◌+◌, ◌-◌, List, [], ◌∷◌, ◌++◌, Bool, true, false, Option, none, some, not, ◌&&◌, ◌||◌,
  if◌then◌else◌, ◌==◌,
}
use netty_tcnative.Base.Jni.{Outcome, returned, thrown, exception, null_pointer}
use Prim.Native.Nat.{bit_and}

-- The protocols that have a bit.
pub data Version : Type 0 where
  sslv2 sslv3 tlsv1 tlsv1_1 tlsv1_2 tlsv1_3 : Version

-- SSL_PROTOCOL_SSLV2 to SSL_PROTOCOL_TLSV1_2, and SSL_PROTOCOL_TLSV1_3 of Java, which has no counterpart
-- in C.
abbrev pub bit : Version → ℕ
bit sslv2 = 1
bit sslv3 = 2
bit tlsv1 = 4
bit tlsv1_1 = 8
bit tlsv1_2 = 16
bit tlsv1_3 = 32

-- SSL_PROTOCOL_TLS and SSL_PROTOCOL_ALL.
abbrev pub protocol_tls : ℕ
protocol_tls = 30

abbrev pub protocol_all : ℕ
protocol_all = 31

-- `protocol & SSL_PROTOCOL_...`.
pub has : ℕ → Version → Bool
has protocol v = not (bit_and protocol (bit v) == 0)

-- The methods of the libraries: TLS_with_buffers_method; TLS_method or SSLv23_method and their variants;
-- the method of one version and its variants.
pub data Family : Type 0 where
  with_buffers any_version : Family
  only : Version → Family

pub data Role : Type 0 where
  client server both : Role

pub data Method : Type 0 where
  method : Family → Role → Method

-- SSL_MODE_CLIENT, SSL_MODE_SERVER and every other mode.
abbrev pub role : ℕ → Role
role mode = if mode == 0 then client else if mode == 1 then server else both

-- The builds: BoringSSL or AWS-LC; OpenSSL from 1.1.0 on; older OpenSSL and LibreSSL, with
-- OPENSSL_NO_TLS1, OPENSSL_NO_SSL3 and OPENSSL_NO_SSL2.
pub data Build : Type 0 where
  buffers modern : Build
  legacy : Bool → Bool → Bool → Build

-- Which method is asked for: none when the version is not compiled in, or an unsupported protocol.
pub data Choice : Type 0 where
  chosen : Method → Choice
  not_compiled unsupported : Choice

abbrev pub one_version : Bool → Version → ℕ → Choice
one_version absent v mode = if absent then not_compiled else chosen (method (only v) (role mode))

-- The default of the switch: "try to give the user the highest supported protocol".
pub highest : Bool → Bool → Bool → ℕ → ℕ → Choice
highest no_tls1 no_ssl3 no_ssl2 protocol mode =
    if not no_tls1 && has protocol tlsv1_2
    then chosen (method (only tlsv1_2) (role mode))
    else if not no_tls1 && has protocol tlsv1_1
    then chosen (method (only tlsv1_1) (role mode))
    else if not no_tls1 && has protocol tlsv1
    then chosen (method (only tlsv1) (role mode))
    else if not no_ssl3 && has protocol sslv3
    then chosen (method (only sslv3) (role mode))
    else if not no_ssl2 && has protocol sslv2
    then chosen (method (only sslv2) (role mode))
    else unsupported

-- The `switch (protocol)`.
pub switch_protocol : Bool → Bool → Bool → ℕ → ℕ → Choice
switch_protocol no_tls1 no_ssl3 no_ssl2 protocol mode =
    if protocol == protocol_tls || protocol == protocol_all
    then chosen (method any_version (role mode))
    else if protocol == bit tlsv1_2
    then one_version no_tls1 tlsv1_2 mode
    else if protocol == bit tlsv1_1
    then one_version no_tls1 tlsv1_1 mode
    else if protocol == bit tlsv1
    then one_version no_tls1 tlsv1 mode
    else if protocol == bit sslv3
    then one_version no_ssl3 sslv3 mode
    else if protocol == bit sslv2
    then one_version no_ssl2 sslv2 mode
    else highest no_tls1 no_ssl3 no_ssl2 protocol mode

-- The method that SSL_CTX_new gets; what a BoringSSL build then sets in the SSL_CTX is in `make_with` and
-- `configure`.
pub choose_method : Build → ℕ → ℕ → Choice
choose_method buffers protocol mode = chosen (method with_buffers both)
choose_method modern protocol mode = chosen (method any_version (role mode))
choose_method (legacy no_tls1 no_ssl3 no_ssl2) protocol mode =
    switch_protocol no_tls1 no_ssl3 no_ssl2 protocol mode

-- The options that `make` sets.
pub data SslOption : Type 0 where
  no_version : Version → SslOption
  single_dh_use single_ecdh_use no_compression no_resumption_on_renegotiation : SslOption

abbrev pub unless : ℕ → Version → List SslOption
unless protocol v = if has protocol v then [] else no_version v ∷ []

-- The calls of SSL_CTX_set_options, in their order. `ecc` is HAVE_ECC.
pub make_options : Bool → ℕ → List SslOption
make_options ecc protocol =
    unless protocol sslv2
    ++ (unless protocol sslv3
        ++ (unless protocol tlsv1
            ++ (unless protocol tlsv1_1
                ++ (unless protocol tlsv1_2
                    ++ (single_dh_use
                        ∷ ((if ecc then single_ecdh_use ∷ [] else [])
                            ++ (no_compression ∷ no_resumption_on_renegotiation ∷ [])))))))

-- A new context: what `make` stores in it and sets in its SSL_CTX. `none` is a version bound that the
-- library chooses.
pub record NewContext : Type 0 where
  pub ssl_method : Method
  pub protocol : ℕ
  pub mode : ℕ
  pub options : List SslOption
  pub dh_callback : Bool
  pub verify_depth : ℕ
  pub unknown_alpn_allowed : Bool
  pub min_version : Option Version
  pub max_version : Option Version

-- The live objects: SSL_CTX, pools and locks. A pool holds its `tcn_ssl_ctxt_t`.
pub record ContextHeap : Type 0 where
  pub ssl_ctxs : ℕ
  pub pools : ℕ
  pub locks : ℕ

-- SSL_CTX_new, apr_pool_create, apr_pcalloc and apr_thread_rwlock_create.
pub record MakeAnswers : Type 0 where
  pub ctx_new : Bool
  pub pool_create : Bool
  pub pcalloc : Bool
  pub rwlock_create : Bool

-- `make` from apr_pool_create on. At `cleanup` the pool, if there is one, and the SSL_CTX are freed.
pub configure :
    Build → Bool → Method → ℕ → ℕ → MakeAnswers → ContextHeap → Outcome NewContext × ContextHeap
configure build ecc ssl_method protocol mode a h =
    if not a.pool_create
    then (thrown exception, record h { ssl_ctxs = h.ssl_ctxs - 1 })
    else if not (a.pcalloc && a.rwlock_create)
    then (thrown exception, record h { ssl_ctxs = h.ssl_ctxs - 1; pools = h.pools + 1 - 1 })
    else (
      returned (record {
        ssl_method = ssl_method;
        protocol = protocol;
        mode = mode;
        options = make_options ecc protocol;
        dh_callback = not (mode == 0);
        verify_depth = 100;
        unknown_alpn_allowed = elim build [ buffers ↦ not (mode == 1) | _ ↦ false ];
        min_version = elim build [ buffers ↦ some tlsv1 | _ ↦ none ];
        max_version = elim build [ buffers ↦ some tlsv1_3 | _ ↦ none ];
      }),
      record h { pools = h.pools + 1; locks = h.locks + 1 },
    )

-- The end of `make`, once SSL_CTX_new was called or there was nothing to call. In a BoringSSL build the
-- bounds of the versions are set in the SSL_CTX before it is compared with NULL: `none` is their access
-- to a NULL pointer.
pub make_with :
    Build
    → Bool
    → Choice
    → ℕ
    → ℕ
    → MakeAnswers
    → ContextHeap
    → Option (Outcome NewContext × ContextHeap)
make_with build ecc unsupported protocol mode a h = some (thrown exception, h)
make_with build ecc not_compiled protocol mode a h = some (thrown exception, h)
make_with build ecc (chosen m) protocol mode a h =
    if a.ctx_new
    then some (configure build ecc m protocol mode a (record h { ssl_ctxs = h.ssl_ctxs + 1 }))
    else elim build [ buffers ↦ none | _ ↦ some (thrown exception, h) ]

-- `SSLContext.make`.
pub make :
    Build → Bool → ℕ → ℕ → MakeAnswers → ContextHeap → Option (Outcome NewContext × ContextHeap)
make build ecc protocol mode a h =
    make_with build ecc (choose_method build protocol mode) protocol mode a h

-- `SSLContext.free`: the cleanup frees the SSL_CTX and destroys the lock, then the pool goes.
pub context_free : Bool → ContextHeap → Outcome ℕ × ContextHeap
context_free true h = (thrown null_pointer, h)
context_free false h =
    (returned 0, record h { ssl_ctxs = h.ssl_ctxs - 1; locks = h.locks - 1; pools = h.pools - 1 })
