-- ===== src/Handshake/VerifySlot/Agree.antt =====
-- The slot of a connection against the verification callback that Verify models.
use netty_tcnative.Base.{
  ℕ, ◌≡◌, refl, sym, ap, ◌∙◌, Bool, true, false, not, ◌&&◌, Option, none, some, List, if◌then◌else◌,
  arith, Bool-cases, inl, inr,
}
use netty_tcnative.Handshake.{SslTask, Connection, TaskAnswers, store_new_task, free_task}
use netty_tcnative.Handshake.VerifySlot.{got, chain_got, slot_task, custom_verify_slot}
use netty_tcnative.Verify.Certs.{get_certs}
use netty_tcnative.Verify.Callback.{
  Codes, Answers, Task, VerifyState, start_task, custom_certs, custom_chain, custom_task,
  cert_custom_verify,
}

-- Whether a slot is empty (0), waits (1) or has a complete task (2), in both models.
abbrev pub status : Option Task → ℕ
status none = 0
status (some t) = if t.complete then 2 else 1

abbrev pub slot_status : Option SslTask → ℕ
slot_status none = 0
slot_status (some t) = if t.complete then 2 else 1

-- JNI and OpenSSL make the task exactly if each step does.
abbrev pub makes : TaskAnswers → Bool
makes b = b.task_made && (b.allocated && b.referenced)

stored-status :
    (b : TaskAnswers) (c : Connection)
    → slot_status (store_new_task b c).ssl_task ≡ (if makes b then 1 else 0)
unfolding store_new_task
stored-status b c = ground arith

freed-status : (c : Connection) → slot_status (free_task c).ssl_task ≡ 0
unfolding free_task
freed-status c = ground arith

start_task-status :
    (x : Codes) (a : Answers) (b : TaskAnswers) (sk certs : List (List ℕ)) (s : VerifyState)
    (c : Connection)
    → a.new_task ≡ makes b
    → status s.ssl_task ≡ 0
    → slot_status c.ssl_task ≡ 0
    → status (start_task x a sk certs s).1.ssl_task
      ≡ slot_status (if not a.task_class then c else store_new_task b c).ssl_task
unfolding start_task
start_task-status x a b sk certs s c m h k = ground (arith, stored-status b c)

-- What the slot becomes once the chain is there.
abbrev chosen_slot : Answers → TaskAnswers → Bool → Connection → Connection
chosen_slot a b use_tasks c =
    let d : Connection = store_new_task b c in
    if not use_tasks then c else if not a.task_class then c else d

custom_certs-status :
    (x : Codes) (a : Answers) (b : TaskAnswers) (sk : List (List ℕ)) (o : Option (List (List ℕ)))
    (s : VerifyState) (c : Connection)
    → a.new_task ≡ makes b
    → status s.ssl_task ≡ 0
    → slot_status c.ssl_task ≡ 0
    → status (custom_certs x a sk o s).1.ssl_task
      ≡ slot_status
          (if not (got o && (a.auth_method_string && s.has_verifier))
            then c
            else chosen_slot a b s.use_tasks c).ssl_task
unfolding custom_certs
custom_certs-status x a b sk none s c m h k = h ∙ sym k
custom_certs-status x a b sk (some certs) s c m h k =
    ground (arith, start_task-status x a b sk certs s c m h k)

custom_chain-status :
    (x : Codes) (a : Answers) (b : TaskAnswers) (o : Option (List (List ℕ))) (s : VerifyState)
    (c : Connection)
    → a.new_task ≡ makes b
    → status s.ssl_task ≡ 0
    → slot_status c.ssl_task ≡ 0
    → status (custom_chain x a o s).1.ssl_task
      ≡ slot_status
          (if not (chain_got a s.verify_depth o && (a.auth_method_string && s.has_verifier))
            then c
            else chosen_slot a b s.use_tasks c).ssl_task
unfolding custom_chain
custom_chain-status x a b none s c m h k = h ∙ sym k
custom_chain-status x a b (some sk) s c m h k =
    custom_certs-status x a b sk (get_certs s.verify_depth sk a.new_object_array a.new_byte_array) s
      c m h k

custom_task-status :
    (x : Codes) (a : Answers) (b : TaskAnswers) (o : Option Task) (p : Option SslTask)
    (s : VerifyState) (c : Connection)
    → a.new_task ≡ makes b
    → s.ssl_task ≡ o
    → c.ssl_task ≡ p
    → status o ≡ slot_status p
    → status (custom_task x a o s).1.ssl_task ≡ slot_status (slot_task a b s p c).ssl_task
unfolding custom_task slot_task
custom_task-status x a b none none s c m h k e =
    custom_chain-status x a b a.chain s c m (ap status h) (ap slot_status k)
custom_task-status x a b none (some u) s c m h k e = absurd (ground arith)
custom_task-status x a b (some t) none s c m h k e = absurd (ground arith)
custom_task-status x a b (some t) (some u) s c m h k e = ground (arith, freed-status c)

-- The task slot of a connection and the task of the verification callback agree on being empty, waiting
-- or complete after a call if they agree before it, whatever fails.
pub custom_verify_slot-agrees :
    (x : Codes) (a : Answers) (b : TaskAnswers) (has_context : Bool) (s : VerifyState)
    (c : Connection)
    → a.new_task ≡ makes b
    → status s.ssl_task ≡ slot_status c.ssl_task
    → status (cert_custom_verify x a has_context s).1.ssl_task
      ≡ slot_status (custom_verify_slot a b has_context s c).ssl_task
unfolding cert_custom_verify custom_verify_slot
custom_verify_slot-agrees x a b false s c m e = e
custom_verify_slot-agrees x a b true s c m e = elim (Bool-cases a.java_env) [
  | inr h ↦ simp h e
  | inl h ↦ simp h (custom_task-status x a b s.ssl_task c.ssl_task s c m refl refl e)
]
