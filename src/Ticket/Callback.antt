-- ===== src/Ticket/Callback.antt =====
-- `ssl_tlsext_ticket_key_cb` over the life of a ticket, through changes of the keys.
use netty_tcnative.Base.{
  ℕ, ◌+◌, ◌<◌, ◌^◌, ◌≡◌, ◌≢◌, ◌⊎◌, refl, ap, ◌∙◌, Bool, true, false, Option, none, some, List, ◌∷◌,
  ◌++◌, arith, inl, inr,
}
use netty_tcnative.Base.Int.{pos}
use netty_tcnative.Ticket.{
  TicketKey, TicketState, Reply, ticket_key_cb, encrypt_ticket, decrypt_ticket, current_session_key,
  find_session_key, atomic_inc32, find_from,
}
use netty_tcnative.Ticket.Table.{Unnamed, find_from-absent, find_from-hit, find_from-behind}

current :
    (c : TicketState) (k : TicketKey) (older : List TicketKey)
    → c.ticket_keys ≡ k ∷ older
    → current_session_key c ≡ some k
unfolding current_session_key
current c k older e = rw e refl

found_again :
    (d : TicketState) (k : TicketKey) (others : List TicketKey)
    → d.ticket_keys ≡ k ∷ others
    → find_session_key d k.key_name ≡ some (k, true)
unfolding find_session_key
found_again d k others e = ap (λ keys. find_from 0 keys k.key_name) e ∙ find_from-hit 0 k others

found_later :
    (d : TicketState) (n k : TicketKey) (newer older : List TicketKey)
    → d.ticket_keys ≡ (n ∷ newer) ++ (k ∷ older)
    → Unnamed k.key_name (n ∷ newer)
    → find_session_key d k.key_name ≡ some (k, false)
unfolding find_session_key
found_later d n k newer older e h =
    ap (λ keys. find_from 0 keys k.key_name) e ∙ find_from-behind n newer k older h

missing :
    (d : TicketState) (name : List ℕ) → Unnamed name d.ticket_keys → find_session_key d name ≡ none
unfolding find_session_key
missing d name h = find_from-absent 0 d.ticket_keys name h

-- A server with the keys `k ∷ older` issues a ticket: it is told to use key `k`, under the name of
-- `k`. While `k` stays the first key (whatever the other keys and the counters become), a client
-- that presents that name gets the same key back with the return value 1.
pub ticket_key_cb-resumes :
    (c d : TicketState) (k : TicketKey) (older others : List TicketKey) (name iv fresh : List ℕ)
    (random : Option (List ℕ))
    → c.ticket_keys ≡ k ∷ older
    → d.ticket_keys ≡ k ∷ others
    → let issued : Reply = ticket_key_cb c name iv (some fresh) true in
      let used : Reply = ticket_key_cb d issued.ticket_name issued.ticket_iv random false in
      (issued.code ≡ pos 1)
      × (issued.armed ≡ some k)
      × (issued.ticket_iv ≡ fresh)
      × (used.code ≡ pos 1)
      × (used.armed ≡ issued.armed)
      × (used.after.ticket_keys_resume ≡ atomic_inc32 d.ticket_keys_resume)
unfolding ticket_key_cb encrypt_ticket decrypt_ticket
ticket_key_cb-resumes c d k older others name iv fresh random e f =
    rw (current c k older e, found_again d k others f) (refl, refl, refl, refl, refl, refl)

-- A ticket of key `k` outlives a change of the keys that puts other keys, none of them of its name,
-- in front of `k`: a client that presents the ticket gets key `k` and the return value 2, which asks
-- OpenSSL to renew the ticket, and only the counter of renewals moves.
pub ticket_key_cb-renews :
    (d : TicketState) (n k : TicketKey) (newer older : List TicketKey) (iv : List ℕ)
    (random : Option (List ℕ))
    → d.ticket_keys ≡ (n ∷ newer) ++ (k ∷ older)
    → Unnamed k.key_name (n ∷ newer)
    → ticket_key_cb d k.key_name iv random false ≡ record {
      code = pos 2;
      ticket_name = k.key_name;
      ticket_iv = iv;
      armed = some k;
      after = record d { ticket_keys_renew = atomic_inc32 d.ticket_keys_renew };
    }
unfolding ticket_key_cb decrypt_ticket
ticket_key_cb-renews d n k newer older iv random e h = rw (found_later d n k newer older e h) refl

-- A ticket of a name that no key has is refused, and is counted as a failure.
pub ticket_key_cb-fails :
    (d : TicketState) (name iv : List ℕ) (random : Option (List ℕ))
    → Unnamed name d.ticket_keys
    → let r : Reply = ticket_key_cb d name iv random false in
      (r.code ≡ pos 0)
      × (r.armed ≡ none)
      × (r.after ≡ record d { ticket_keys_fail = atomic_inc32 d.ticket_keys_fail })
unfolding ticket_key_cb decrypt_ticket
ticket_key_cb-fails d name iv random h = rw (missing d name h) (refl, refl, refl)

-- The tickets presented so far, and all the tickets counted.
abbrev pub presented : TicketState → ℕ
presented c = c.ticket_keys_resume + c.ticket_keys_renew + c.ticket_keys_fail

-- What a call may do to the counters, by its return value.
abbrev pub Counted : Bool → TicketState → Reply → Type 0
Counted true c r =
    (presented r.after ≡ presented c)
    × (((r.code ≡ pos 1) × (r.after.ticket_keys_new ≡ c.ticket_keys_new + 1))
        ⊎ ((r.code ≢ pos 1) × (r.after.ticket_keys_new ≡ c.ticket_keys_new)))
Counted false c r =
    (presented r.after ≡ presented c + 1) × (r.after.ticket_keys_new ≡ c.ticket_keys_new)

encrypt-Counted :
    (o : Option TicketKey) (c : TicketState) (name iv : List ℕ) (random : Option (List ℕ))
    → c.ticket_keys_new + 1 < 2 ^ 32
    → let r : Reply = encrypt_ticket o c name iv random in
      Counted true c r × (r.after.ticket_keys ≡ c.ticket_keys)
unfolding encrypt_ticket
encrypt-Counted none c name iv random a = ((refl, inr ((λ e. cc), refl)), refl)
encrypt-Counted (some k) c name iv none a = ((refl, inr ((λ e. cc), refl)), refl)
encrypt-Counted (some k) c name iv (some fresh) a = ((refl, inl (refl, omega arith)), refl)

decrypt-Counted :
    (o : Option (TicketKey × Bool)) (c : TicketState) (name iv : List ℕ)
    → c.ticket_keys_resume + 1 < 2 ^ 32
    → c.ticket_keys_renew + 1 < 2 ^ 32
    → c.ticket_keys_fail + 1 < 2 ^ 32
    → let r : Reply = decrypt_ticket o c name iv in
      Counted false c r × (r.after.ticket_keys ≡ c.ticket_keys)
unfolding decrypt_ticket
decrypt-Counted none c name iv a b d = ((omega arith, refl), refl)
decrypt-Counted (some (k, true)) c name iv a b d = ((omega arith, refl), refl)
decrypt-Counted (some (k, false)) c name iv a b d = ((omega arith, refl), refl)

-- While no counter is at its maximum, a call that is asked for a new ticket counts it exactly if it
-- returns 1, and moves no other counter; a call that is shown a ticket moves exactly one of the other
-- counters, by one. No call changes the keys.
pub ticket_key_cb-Counted :
    (c : TicketState) (name iv : List ℕ) (random : Option (List ℕ)) (enc : Bool)
    → c.ticket_keys_new + 1 < 2 ^ 32
    → c.ticket_keys_resume + 1 < 2 ^ 32
    → c.ticket_keys_renew + 1 < 2 ^ 32
    → c.ticket_keys_fail + 1 < 2 ^ 32
    → Counted enc c (ticket_key_cb c name iv random enc)
      × ((ticket_key_cb c name iv random enc).after.ticket_keys ≡ c.ticket_keys)
unfolding ticket_key_cb
ticket_key_cb-Counted c name iv random true a b d e =
    encrypt-Counted (current_session_key c) c name iv random a
ticket_key_cb-Counted c name iv random false a b d e =
    decrypt-Counted (find_session_key c name) c name iv b d e
