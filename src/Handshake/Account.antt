-- ===== src/Handshake/Account.antt =====
-- The allocations and the global references of the tasks of a connection, from `newSSL` to `freeSSL`.
use netty_tcnative.Base.{false, ℕ, ◌≡◌, refl, ap, ◌∙◌, Bool, true, Option, none, some, List, arith}
use netty_tcnative.Base.Int.{ℤ}
use netty_tcnative.Base.Jni.{returned}
use netty_tcnative.Verify.Callback.{Answers, VerifyState}
use netty_tcnative.Handshake.VerifySlot.{custom_verify_slot}
use netty_tcnative.Handshake.{
  new_ssl, SslTask, Connection, TaskAnswers, store_new_task, free_task, get_task, free_ssl,
  CertificateAnswers, certificate_cb, KeyResult, KeyAnswers, start_key_task, private_key_java,
  private_key_complete_java,
}
use netty_tcnative.Handshake.Owned.{
  java_done, held, IsOwned, free_task-IsOwned, take_task-IsOwned, java_done-IsOwned,
  certificate_cb-IsOwned, custom_verify_slot-IsOwned, private_key_java-IsOwned,
  private_key_complete_java-IsOwned, new_ssl-IsOwned,
}

-- A connection after any sequence of these calls. BoringSSL starts a private key operation only while
-- none is pending, so that the slot is empty then.
pub data Reached : Connection → Type 0 where
  started :
      (ssl_made state_allocated : Bool) (live : ℕ) {c : Connection}
      → (new_ssl false ssl_made state_allocated live).0 ≡ returned c
      → Reached c
  taken : {c : Connection} → Reached c → Reached (get_task c).1
  finished :
      (ret : ℤ) (result : Option (List ℕ)) {c : Connection}
      → Reached c
      → Reached (java_done ret result c)
  certificate_asked :
      (a : CertificateAnswers) (use_tasks : Bool) {c : Connection} {r : ℤ × Connection}
      → Reached c
      → certificate_cb a use_tasks c ≡ some r
      → Reached r.1
  verify_asked :
      (a : Answers) (b : TaskAnswers) (has_context : Bool) (s : VerifyState) {c : Connection}
      → Reached c
      → Reached (custom_verify_slot a b has_context s c)
  key_asked :
      (a : KeyAnswers) (use_tasks : Bool) (out : List ℕ) {c : Connection}
      {r : KeyResult × List ℕ × Connection}
      → Reached c
      → c.ssl_task ≡ none
      → private_key_java a use_tasks out c ≡ some r
      → Reached r.2
  key_completed :
      (a : KeyAnswers) (has_context use_tasks : Bool) (out : List ℕ) {c : Connection}
      {r : KeyResult × List ℕ × Connection}
      → Reached c
      → private_key_complete_java a has_context use_tasks out c ≡ some r
      → Reached r.2

Reached-IsOwned : (c : Connection) → Reached c → IsOwned c
unfolding get_task
Reached-IsOwned _ (started ssl_made state_allocated live {c} e) =
    new_ssl-IsOwned ssl_made state_allocated live c e
Reached-IsOwned _ (taken {c} h) = take_task-IsOwned c.ssl_task c refl (Reached-IsOwned c h)
Reached-IsOwned _ (finished ret result {c} h) = java_done-IsOwned ret result c (Reached-IsOwned c h)
Reached-IsOwned _ (certificate_asked a use_tasks {c} {r} h step) =
    certificate_cb-IsOwned a use_tasks c r (Reached-IsOwned c h) step
Reached-IsOwned _ (verify_asked a b has_context s {c} h) =
    custom_verify_slot-IsOwned a b has_context s c (Reached-IsOwned c h)
Reached-IsOwned _ (key_asked a use_tasks out {c} {r} h e step) =
    private_key_java-IsOwned a use_tasks out c r e (Reached-IsOwned c h) step
Reached-IsOwned _ (key_completed a has_context use_tasks out {c} {r} h step) =
    private_key_complete_java-IsOwned a has_context use_tasks out c r (Reached-IsOwned c h) step

-- From `newSSL` on, after any sequence of the certificate callback, the verification callback, private key operations (each one
-- started while no task is pending), `getTask` calls and completions by Java, with any failures: as
-- many task allocations and global references are live as the slot holds tasks, and `freeSSL` leaves
-- none of either.
pub free_ssl-releases :
    (c : Connection)
    → Reached c
    → IsOwned c × ((free_ssl c).task_allocations ≡ 0) × ((free_ssl c).task_refs ≡ 0)
unfolding free_ssl
free_ssl-releases c h =
    let owned : IsOwned c = Reached-IsOwned c h in
    let f = free_task-IsOwned c owned in (owned, f.0.0 ∙ ap held f.1, f.0.1 ∙ ap held f.1)

-- A private key operation that is started with tasks on while a task is pending overwrites it: when
-- the new task is created, the old one is lost, and after `freeSSL` one allocation and one global
-- reference are still live.
pub private_key_java-overwrites :
    (a : KeyAnswers) (out : List ℕ) (c : Connection) (t : SslTask)
    {r : KeyResult × List ℕ × Connection}
    → IsOwned c
    → c.ssl_task ≡ some t
    → private_key_java a true out c ≡ some r
    → r.0 ≡ KeyResult.retry
    → ((free_ssl r.2).task_allocations ≡ 1) × ((free_ssl r.2).task_refs ≡ 1)
unfolding private_key_java start_key_task store_new_task free_ssl free_task
private_key_java-overwrites a out c t h e step waits = ground arith
