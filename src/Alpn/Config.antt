-- ===== src/Alpn/Config.antt =====
-- The part of `tcn_ssl_ctxt_t` that protocol selection reads, the calls of sslcontext.c that fill it,
-- and the callbacks of sslutils.c.
pub mod Reach
use netty_tcnative.Base.{
  ℕ, Bool, true, false, not, Option, none, some, List, [], ◌∷◌, length, ◌==◌, if◌then◌else◌,
}
use netty_tcnative.Base.Int.{ℤ}
use netty_tcnative.Base.Jni.{Outcome, returned, thrown, null_pointer, out_of_memory}
use netty_tcnative.Alpn.{Selection, select_next_proto}

-- SSL_MODE_CLIENT.
abbrev pub mode_client : ℕ
mode_client = 0

-- The fields of `tcn_ssl_ctxt_t`, and what was registered with its SSL_CTX. `none` is NULL.
pub record ProtocolConfig : Type 0 where
  pub mode : ℕ
  pub next_proto_data : Option (List ℕ)
  pub next_proto_len : ℕ
  pub next_selector_failure_behavior : ℕ
  pub alpn_proto_data : Option (List ℕ)
  pub alpn_proto_len : ℕ
  pub alpn_selector_failure_behavior : ℕ
  pub next_proto_select_cb : Bool
  pub next_protos_advertised_cb : Bool
  pub alpn_select_cb : Bool
  pub alpn_protos : Option (List ℕ)

-- A context that `make` has just allocated with apr_pcalloc.
unfoldable pub new_config : ℕ → ProtocolConfig
new_config mode = record {
  mode = mode;
  next_proto_data = none;
  next_proto_len = 0;
  next_selector_failure_behavior = 0;
  alpn_proto_data = none;
  alpn_proto_len = 0;
  alpn_selector_failure_behavior = 0;
  next_proto_select_cb = false;
  next_protos_advertised_cb = false;
  alpn_select_cb = false;
  alpn_protos = none;
}

-- `setNpnProtos0`. `malloc` says whether OPENSSL_malloc of that many bytes succeeds.
pub set_npn_protos :
    Bool → (ℕ → Bool) → Option (List ℕ) → ℤ → ProtocolConfig → Outcome (Unit {0}) × ProtocolConfig
set_npn_protos true malloc protos selector_failure_behavior c = (thrown null_pointer, c)
set_npn_protos false malloc none selector_failure_behavior c = (returned tt, c)
set_npn_protos false malloc (some next_protos) selector_failure_behavior c =
    if not (malloc (length next_protos))
    then (thrown out_of_memory, record c { next_proto_data = none })
    else if c.mode == mode_client
    then (
      returned tt,
      record c {
        next_proto_data = some next_protos;
        next_proto_len = length next_protos;
        next_proto_select_cb = true;
      },
    )
    else (
      returned tt,
      record c {
        next_proto_data = some next_protos;
        next_proto_len = length next_protos;
        next_protos_advertised_cb = true;
      },
    )

-- `setAlpnProtos0`.
unfoldable pub set_alpn_protos :
    Bool → (ℕ → Bool) → Option (List ℕ) → ℤ → ProtocolConfig → Outcome (Unit {0}) × ProtocolConfig
set_alpn_protos true malloc protos selector_failure_behavior c = (thrown null_pointer, c)
set_alpn_protos false malloc none selector_failure_behavior c = (returned tt, c)
set_alpn_protos false malloc (some alpn_protos) selector_failure_behavior c =
    if not (malloc (length alpn_protos))
    then (thrown out_of_memory, record c { alpn_proto_data = none })
    else if c.mode == mode_client
    then (
      returned tt,
      record c {
        alpn_proto_data = some alpn_protos;
        alpn_proto_len = length alpn_protos;
        alpn_protos = some alpn_protos;
      },
    )
    else (
      returned tt,
      record c {
        alpn_proto_data = some alpn_protos;
        alpn_proto_len = length alpn_protos;
        alpn_select_cb = true;
      },
    )

-- What may be read behind a pointer: nothing behind NULL.
abbrev pub readable : Option (List ℕ) → List ℕ
readable none = []
readable (some bytes) = bytes

-- `tcn_SSL_callback_next_protos`: the pointer and the length that are advertised.
pub callback_next_protos : ProtocolConfig → Option (List ℕ) × ℕ
callback_next_protos c = (c.next_proto_data, c.next_proto_len)

-- `tcn_SSL_callback_select_next_proto`.
pub callback_select_next_proto : ProtocolConfig → List ℕ → Selection
callback_select_next_proto c input =
    select_next_proto input (readable c.next_proto_data) c.next_proto_len
      c.next_selector_failure_behavior

-- `tcn_SSL_callback_alpn_select_proto`.
pub callback_alpn_select_proto : ProtocolConfig → List ℕ → Selection
callback_alpn_select_proto c input =
    select_next_proto input (readable c.alpn_proto_data) c.alpn_proto_len
      c.alpn_selector_failure_behavior
