-- ===== src/Handshake/Owned.antt =====
-- The calls on a connection (ssl.c and sslcontext.c of openssl-dynamic/src/main/c) one by one: the task
-- in the slot, its allocation and its global reference.
use netty_tcnative.Base.{
  false, not, if◌then◌else◌, ℕ, ◌≡◌, refl, ap, ◌∙◌, Bool, true, Option, none, some, List, arith,
  Option-cases, inl, inr,
}
use netty_tcnative.Base.Int.{ℤ}
use netty_tcnative.Base.Jni.{returned}
use netty_tcnative.Verify.Callback.{Answers, VerifyState}
use netty_tcnative.Handshake.VerifySlot.{asks_java, slot_task, custom_verify_slot}
use netty_tcnative.Handshake.{
  new_ssl, SslTask, Connection, TaskAnswers, store_new_task, free_task, new_state, take_task,
  CertificateAnswers, request_certificate, certificate_task, certificate_cb, KeyResult, KeyAnswers,
  copy_out, start_key_task, private_key_java, collect, complete_task, private_key_complete_java,
}

-- What Java leaves in the pending task.
abbrev pub completed : ℤ → Option (List ℕ) → Option SslTask → Option SslTask
completed ret result none = none
completed ret result (some t) =
    some (record t { complete = true; return_value = ret; result_bytes = result })

-- Java completes the pending task.
abbrev pub java_done : ℤ → Option (List ℕ) → Connection → Connection
java_done ret result c = record c { ssl_task = completed ret result c.ssl_task }

-- The tasks that a slot holds.
abbrev pub held : Option SslTask → ℕ
held none = 0
held (some t) = 1

-- Exactly the task in the slot is live, as an allocation and as a global reference.
abbrev pub IsOwned : Connection → Type 0
IsOwned c = (c.task_allocations ≡ held c.ssl_task) × (c.task_refs ≡ held c.ssl_task)

store_new_task-IsOwned :
    (a : TaskAnswers) (c : Connection)
    → c.task_allocations ≡ 0
    → c.task_refs ≡ 0
    → IsOwned (store_new_task a c)
unfolding store_new_task
store_new_task-IsOwned a c h k = ground arith

pub free_task-IsOwned :
    (c : Connection) → IsOwned c → (IsOwned (free_task c)) × ((free_task c).ssl_task ≡ none)
unfolding free_task
free_task-IsOwned c h = ground arith

pub take_task-IsOwned :
    (o : Option SslTask) (c : Connection) → c.ssl_task ≡ o → IsOwned c → IsOwned (take_task o c).1
unfolding take_task
take_task-IsOwned none c e h = h
take_task-IsOwned (some t) c e h = ground arith

pub java_done-IsOwned :
    (ret : ℤ) (result : Option (List ℕ)) (c : Connection)
    → IsOwned c
    → IsOwned (java_done ret result c)
java_done-IsOwned ret result c h = ground arith

request_certificate-IsOwned :
    (a : CertificateAnswers) (use_tasks : Bool) (c : Connection)
    → c.ssl_task ≡ none
    → IsOwned c
    → IsOwned (request_certificate a use_tasks c).1
unfolding request_certificate
request_certificate-IsOwned a use_tasks c e h = ground (arith, store_new_task-IsOwned a.task c)

chosen : (b : Bool) (c d : Connection) → IsOwned c → IsOwned d → IsOwned (if b then c else d)
chosen true c d h k = h
chosen false c d h k = k

certificate_task-IsOwned :
    (a : CertificateAnswers) (use_tasks : Bool) (o : Option SslTask) (c : Connection)
    (r : ℤ × Connection)
    → c.ssl_task ≡ o
    → IsOwned c
    → certificate_task a use_tasks o c ≡ some r
    → IsOwned r.1
unfolding certificate_task
certificate_task-IsOwned a use_tasks none c r e h step =
    ground (arith, request_certificate-IsOwned a use_tasks c e h)
certificate_task-IsOwned a use_tasks (some t) c r e h step = ground (arith, free_task-IsOwned c h)

pub certificate_cb-IsOwned :
    (a : CertificateAnswers) (use_tasks : Bool) (c : Connection) (r : ℤ × Connection)
    → IsOwned c
    → certificate_cb a use_tasks c ≡ some r
    → IsOwned r.1
unfolding certificate_cb
certificate_cb-IsOwned a use_tasks c r h step =
    ground (arith, certificate_task-IsOwned a use_tasks c.ssl_task c r refl h)

slot_task-IsOwned :
    (a : Answers) (b : TaskAnswers) (s : VerifyState) (o : Option SslTask) (c : Connection)
    → c.ssl_task ≡ o
    → IsOwned c
    → IsOwned (slot_task a b s o c)
unfolding slot_task
slot_task-IsOwned a b s none c e h = chosen (not (asks_java a s)) c _ h (
    chosen (not s.use_tasks) c _ h (
      chosen (not a.task_class) c _ h
        (store_new_task-IsOwned b c (h.0 ∙ ap held e) (h.1 ∙ ap held e))))
slot_task-IsOwned a b s (some t) c e h =
    chosen (not t.complete) c (free_task c) h (free_task-IsOwned c h).0

pub custom_verify_slot-IsOwned :
    (a : Answers) (b : TaskAnswers) (has_context : Bool) (s : VerifyState) (c : Connection)
    → IsOwned c
    → IsOwned (custom_verify_slot a b has_context s c)
unfolding custom_verify_slot
custom_verify_slot-IsOwned a b has_context s c h =
    chosen (not has_context) c _ h
      (chosen (not a.java_env) c _ h (slot_task-IsOwned a b s c.ssl_task c refl h))

start_key_task-IsOwned :
    (a : KeyAnswers) (out : List ℕ) (c : Connection)
    → c.ssl_task ≡ none
    → IsOwned c
    → IsOwned (start_key_task a out c).2
unfolding start_key_task
start_key_task-IsOwned a out c e h = ground (arith, store_new_task-IsOwned a.task c)

pub private_key_java-IsOwned :
    (a : KeyAnswers) (use_tasks : Bool) (out : List ℕ) (c : Connection)
    (r : KeyResult × List ℕ × Connection)
    → c.ssl_task ≡ none
    → IsOwned c
    → private_key_java a use_tasks out c ≡ some r
    → IsOwned r.2
unfolding private_key_java
private_key_java-IsOwned a use_tasks out c r e h step =
    ground (arith, start_key_task-IsOwned a out c e h)

collect-connection :
    (elements : Bool) (o : Option (List ℕ)) (out : List ℕ) (c : Connection)
    (r : KeyResult × List ℕ × Connection)
    → collect elements o out c ≡ some r
    → r.2 ≡ c
unfolding collect
collect-connection elements none out c r e = ground arith
collect-connection elements (some result) out c r e =
    elim (Option-cases (copy_out elements result out)) [
      | inl k ↦ ground arith
      | inr (w, k) ↦ ground arith
    ]

complete_task-IsOwned :
    (a : KeyAnswers) (o : Option SslTask) (out : List ℕ) (c : Connection)
    (r : KeyResult × List ℕ × Connection)
    → IsOwned c
    → complete_task a o out c ≡ some r
    → IsOwned r.2
unfolding complete_task
complete_task-IsOwned a none out c r h e = ground arith
complete_task-IsOwned a (some t) out c r h e =
    ground (
      arith,
      free_task-IsOwned c h,
      collect-connection a.elements t.result_bytes out (free_task c) r,
    )

pub private_key_complete_java-IsOwned :
    (a : KeyAnswers) (has_context use_tasks : Bool) (out : List ℕ) (c : Connection)
    (r : KeyResult × List ℕ × Connection)
    → IsOwned c
    → private_key_complete_java a has_context use_tasks out c ≡ some r
    → IsOwned r.2
unfolding private_key_complete_java
private_key_complete_java-IsOwned a has_context use_tasks out c r h e =
    ground (arith, complete_task-IsOwned a c.ssl_task out c r h)

pub new_ssl-IsOwned :
    (ssl_made state_allocated : Bool) (live : ℕ) (c : Connection)
    → (new_ssl false ssl_made state_allocated live).0 ≡ returned c
    → IsOwned c
unfolding new_ssl new_state
new_ssl-IsOwned ssl_made state_allocated live c e = ground arith
