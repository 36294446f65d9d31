-- ===== src/Ticket.antt =====
-- TLS session tickets: `ssl_tlsext_ticket_key_cb` of openssl-dynamic/src/main/c/sslcontext.c, the
-- table of ticket keys that it reads, `setSessionTicketKeys0` that fills it, and the four counters.
-- A step that may read outside of the key array returns `none`.
pub mod Table
pub mod Parse
pub mod Callback
mod Tests
use netty_tcnative.Base.{
  ℕ, zero, suc, ◌+◌, ◌*◌, ◌/◌, ◌%◌, ◌^◌, Bool, true, false, not, Option, none, some, List, [], ◌∷◌,
  length, read_at, eq_bytes, ◌==◌, if◌then◌else◌, ◌>>=◌,
}
use netty_tcnative.Base.Int.{ℤ, pos, negsuc}
use netty_tcnative.Base.Jni.{Outcome, returned, thrown, null_pointer, exception}

-- SSL_SESSION_TICKET_KEY_SIZE.
abbrev pub session_ticket_key_size : ℕ
session_ticket_key_size = 48

-- `tcn_ssl_ticket_key_t`: three fields of 16 bytes. `mac_params` is made from `hmac_key` alone.
pub record TicketKey : Type 0 where
  pub key_name : List ℕ
  pub hmac_key : List ℕ
  pub aes_key : List ℕ

-- The fields of `tcn_ssl_ctxt_t` that concern tickets. The length of `ticket_keys` is
-- `ticket_keys_len`.
pub record TicketState : Type 0 where
  pub ticket_keys : List TicketKey
  pub ticket_keys_new : ℕ
  pub ticket_keys_resume : ℕ
  pub ticket_keys_renew : ℕ
  pub ticket_keys_fail : ℕ
  pub callback_set : Bool

-- `apr_atomic_inc32`.
abbrev pub atomic_inc32 : ℕ → ℕ
atomic_inc32 n = (n + 1) % 2 ^ 32

pub current_session_key : TicketState → Option TicketKey
current_session_key c = elim c.ticket_keys [ [] ↦ none | k ∷ keys ↦ some k ]

-- The loop of `find_session_key` from index `i`, with the flag `is_current_key`.
pub find_from : ℕ → List TicketKey → List ℕ → Option (TicketKey × Bool)
find_from i [] name = none
find_from i (k ∷ keys) name =
    if eq_bytes k.key_name name then some (k, i == 0) else find_from (suc i) keys name

pub find_session_key : TicketState → List ℕ → Option (TicketKey × Bool)
find_session_key c name = find_from 0 c.ticket_keys name

-- What the callback leaves behind: its return value, the name and the vector of the ticket, and the
-- key that the cipher and the HMAC contexts were set up with, if they were.
pub record Reply : Type 0 where
  pub code : ℤ
  pub ticket_name : List ℕ
  pub ticket_iv : List ℕ
  pub armed : Option TicketKey
  pub after : TicketState

-- A reply that leaves the ticket alone.
abbrev refused : ℤ → List ℕ → List ℕ → TicketState → Reply
refused code name iv c = record {
  code = code;
  ticket_name = name;
  ticket_iv = iv;
  armed = none;
  after = c;
}

-- `enc` is not 0: a new ticket. `random` is what RAND_bytes gives, or `none` when it fails.
pub encrypt_ticket : Option TicketKey → TicketState → List ℕ → List ℕ → Option (List ℕ) → Reply
encrypt_ticket none c name iv random = refused (pos 0) name iv c
encrypt_ticket (some key) c name iv none = refused (negsuc 0) name iv c
encrypt_ticket (some key) c name iv (some fresh) = record {
  code = pos 1;
  ticket_name = key.key_name;
  ticket_iv = fresh;
  armed = some key;
  after = record c { ticket_keys_new = atomic_inc32 c.ticket_keys_new };
}

-- `enc` is 0: a ticket that a client presents, with the key of its name and `is_current_key`.
pub decrypt_ticket : Option (TicketKey × Bool) → TicketState → List ℕ → List ℕ → Reply
decrypt_ticket none c name iv =
    refused (pos 0) name iv (record c { ticket_keys_fail = atomic_inc32 c.ticket_keys_fail })
decrypt_ticket (some (key, true)) c name iv = record {
  code = pos 1;
  ticket_name = name;
  ticket_iv = iv;
  armed = some key;
  after = record c { ticket_keys_resume = atomic_inc32 c.ticket_keys_resume };
}
decrypt_ticket (some (key, false)) c name iv = record {
  code = pos 2;
  ticket_name = name;
  ticket_iv = iv;
  armed = some key;
  after = record c { ticket_keys_renew = atomic_inc32 c.ticket_keys_renew };
}

-- `ssl_tlsext_ticket_key_cb` of an SSL that has a context.
pub ticket_key_cb : TicketState → List ℕ → List ℕ → Option (List ℕ) → Bool → Reply
ticket_key_cb c name iv random enc =
    if enc
    then encrypt_ticket (current_session_key c) c name iv random
    else decrypt_ticket (find_session_key c name) c name iv

-- One round of the loop of `setSessionTicketKeys0`.
pub read_key : List ℕ → ℕ → Option TicketKey
read_key b i = read_at b (session_ticket_key_size * i) 16 >>= λ name.
    read_at b (session_ticket_key_size * i + 16) 16 >>= λ hmac.
    read_at b (session_ticket_key_size * i + 32) 16 >>= λ aes.
    some (record { key_name = name; hmac_key = hmac; aes_key = aes })

-- `n` rounds from index `i`.
pub read_keys : ℕ → ℕ → List ℕ → Option (List TicketKey)
read_keys zero i b = some []
read_keys (suc n) i b = read_key b i >>= λ k. read_keys n (suc i) b >>= λ keys. some (k ∷ keys)

-- `setSessionTicketKeys0`. `malloc` and `elements` say whether OPENSSL_malloc of that many keys and
-- GetByteArrayElements succeed.
pub set_session_ticket_keys :
    Bool → (ℕ → Bool) → Bool → List ℕ → TicketState → Option (Outcome (Unit {0}) × TicketState)
set_session_ticket_keys ctx_is_null malloc elements keys c =
    let cnt : ℕ = length keys / session_ticket_key_size in
    if ctx_is_null
    then some (thrown null_pointer, c)
    else if not (malloc cnt)
    then some (thrown exception, c)
    else if not elements
    then some (thrown exception, c)
    else (read_keys cnt 0 keys >>= λ ticket_keys.
        some (returned tt, record c { ticket_keys = ticket_keys; callback_set = true }))

-- The statistics calls of a context that is not NULL.
pub data Counter : Type 0 where
  key_new key_resume key_renew key_fail : Counter

pub session_ticket_key_counter : Counter → Bool → TicketState → Outcome ℕ
session_ticket_key_counter counter true c = thrown null_pointer
session_ticket_key_counter key_new false c = returned c.ticket_keys_new
session_ticket_key_counter key_resume false c = returned c.ticket_keys_resume
session_ticket_key_counter key_renew false c = returned c.ticket_keys_renew
session_ticket_key_counter key_fail false c = returned c.ticket_keys_fail
