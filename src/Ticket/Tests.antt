-- ===== src/Ticket/Tests.antt =====
-- The theorems on session tickets at concrete keys.
use netty_tcnative.Base.{ℕ, ◌≡◌, ◌≢◌, refl, true, false, none, some, List, [], ◌∷◌, replicate}
use netty_tcnative.Base.Int.{pos}
use netty_tcnative.Base.Jni.{returned}
use netty_tcnative.Ticket.{
  TicketKey, TicketState, ticket_key_cb, set_session_ticket_keys, atomic_inc32,
}
use netty_tcnative.Ticket.Parse.{serialise, set_session_ticket_keys-serialise}
use netty_tcnative.Ticket.Callback.{ticket_key_cb-renews}

-- A key whose bytes are all the same.
abbrev key_of : ℕ → TicketKey
key_of n = record { key_name = replicate 16 n; hmac_key = replicate 16 n; aes_key = replicate 16 n }

abbrev state_of : List TicketKey → TicketState
state_of keys = record {
  ticket_keys = keys;
  ticket_keys_new = 0;
  ticket_keys_resume = 0;
  ticket_keys_renew = 0;
  ticket_keys_fail = 0;
  callback_set = false;
}

set_session_ticket_keys-serialise_example :
    set_session_ticket_keys false
      (λ n. true)
      true
      (serialise (key_of 1 ∷ key_of 2 ∷ []))
      (state_of [])
    ≡ some (returned tt, record (state_of (key_of 1 ∷ key_of 2 ∷ [])) { callback_set = true })
set_session_ticket_keys-serialise_example =
    set_session_ticket_keys-serialise (λ n. true) (key_of 1 ∷ key_of 2 ∷ []) (state_of [])
      (refl, refl, refl, (refl, refl, refl, tt)) refl

-- The names of two keys differ.
differ : (key_of 2).key_name ≢ (key_of 1).key_name
differ e = cc

ticket_key_cb-renews_example :
    ticket_key_cb (state_of (key_of 2 ∷ key_of 1 ∷ [])) (key_of 1).key_name [] none false ≡ record {
      code = pos 2;
      ticket_name = (key_of 1).key_name;
      ticket_iv = [];
      armed = some (key_of 1);
      after = record (state_of (key_of 2 ∷ key_of 1 ∷ [])) { ticket_keys_renew = atomic_inc32 0 };
    }
ticket_key_cb-renews_example =
    ticket_key_cb-renews (state_of (key_of 2 ∷ key_of 1 ∷ [])) (key_of 2) (key_of 1) [] [] [] none
      refl (differ, tt)
