-- ===== src/Handshake/Once.antt =====
-- `SSL.getTask`, called again and again.
use netty_tcnative.Base.{ℕ, ◌≡◌, refl, true, Option, none, some, List, Bool-cases, inl, inr}
use netty_tcnative.Base.Int.{ℤ}
use netty_tcnative.Handshake.{SslTask, Connection, take_task, get_task}
use netty_tcnative.Handshake.Owned.{java_done, completed}

-- The slot has no task that may still be handed out.
abbrev pub IsSpent : Option SslTask → Type 0
IsSpent none = Unit {0}
IsSpent (some t) = t.consumed ≡ true

-- Later connections, by further `getTask` calls and completions by Java.
pub data Later (c : Connection) : Connection → Type 0 where
  now : Later c c
  taken : {d : Connection} → Later c d → Later c (get_task d).1
  finished :
      (ret : ℤ) (result : Option (List ℕ)) {d : Connection}
      → Later c d
      → Later c (java_done ret result d)

take_task-IsSpent :
    (o : Option SslTask) (c : Connection) → c.ssl_task ≡ o → IsSpent (take_task o c).1.ssl_task
unfolding take_task
take_task-IsSpent none c e = rw e tt
take_task-IsSpent (some t) c e = elim (Bool-cases t.consumed) [
  | inl h ↦ rw h (rw e h)
  | inr h ↦ rw h refl
]

completed-IsSpent :
    (ret : ℤ) (result : Option (List ℕ)) (o : Option SslTask)
    → IsSpent o
    → IsSpent (completed ret result o)
completed-IsSpent ret result none h = tt
completed-IsSpent ret result (some t) h = h

Later-IsSpent : (c d : Connection) → IsSpent c.ssl_task → Later c d → IsSpent d.ssl_task
unfolding get_task
Later-IsSpent c _ h now = h
Later-IsSpent c _ h (taken {d} l) = take_task-IsSpent d.ssl_task d refl
Later-IsSpent c _ h (finished ret result {d} l) =
    completed-IsSpent ret result d.ssl_task (Later-IsSpent c d h l)

spent-none : (o : Option SslTask) (c : Connection) → IsSpent o → (take_task o c).0 ≡ none
unfolding take_task
spent-none none c h = refl
spent-none (some t) c h = rw h refl

-- After one `getTask` call, whether it gave a task or not, and any further calls of it and completions
-- by Java in any order, the next `getTask` call gives no task.
pub get_task-once : (c d : Connection) → Later (get_task c).1 d → (get_task d).0 ≡ none
unfolding get_task
get_task-once c d l =
    spent-none d.ssl_task d (Later-IsSpent (get_task c).1 d (take_task-IsSpent c.ssl_task c refl) l)
