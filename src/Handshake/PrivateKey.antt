-- ===== src/Handshake/PrivateKey.antt =====
-- The private key method against the buffer that BoringSSL gives it.
use netty_tcnative.Base.{
  ℕ, ◌+◌, ◌≤◌, ◌≡◌, ap, ◌∙◌, true, Option, none, some, List, ◌++◌, length, drop, if◌then◌else◌,
  arith, le→leb, le→not-ltb,
}
use netty_tcnative.Handshake.{
  SslTask, Connection, free_task, KeyResult, success, retry, failure, KeyAnswers, copy_out, collect,
  complete_task, private_key_complete_java,
}

-- What may have happened to a buffer `out` by the time that an operation returns: on a success the
-- bytes stand at its start and the rest is as before, else all of it is as before.
abbrev pub Filled : List ℕ → Option (List ℕ) → KeyResult → List ℕ → Type 0
Filled out answer (success n) written =
    (result : List ℕ) × (answer ≡ some result)
    × (n ≡ length result)
    × (n ≤ length out)
    × (written ≡ result ++ drop n out)
Filled out answer KeyResult.success_as_is written = written ≡ out
Filled out answer retry written = written ≡ out
Filled out answer failure written = written ≡ out

-- The bytes that a complete task has for a connection.
abbrev pub pending_bytes : Option SslTask → Option (List ℕ)
pending_bytes none = none
pending_bytes (some t) = if t.complete then t.result_bytes else none

-- What a call did to `out`, given where its bytes come from.
abbrev Calls : Option (KeyResult × List ℕ × Connection) → List ℕ → Option (List ℕ) → Type 0
Calls o out answer =
    (r : KeyResult × List ℕ × Connection) × (o ≡ some r) × Filled out answer r.0 r.1

complete_task-succeeds :
    (a : KeyAnswers) (out result : List ℕ) (c : Connection) (t : SslTask)
    → a.java_env ≡ true
    → a.elements ≡ true
    → t.complete ≡ true
    → t.result_bytes ≡ some result
    → length result ≤ length out
    → complete_task a (some t) out c
      ≡ some (success (length result), result ++ drop (length result) out, free_task c)
unfolding complete_task collect copy_out
complete_task-succeeds a out result c t h1 h2 h4 h5 room =
    rw
      (
        h1,
        h4,
        h5,
        h2,
        le→not-ltb (length out) (length result) room,
        le→leb (0 + length result) (length out) (omega arith),
      )
      (ap (λ n. some (success (length result), result ++ drop n out, free_task c))
        {x = 0 + length result} (omega arith))

-- When a complete task has bytes that fit, nothing fails and tasks are on, the completing call succeeds
-- with them and the slot is freed.
pub private_key_complete_java-succeeds :
    (a : KeyAnswers) (out result : List ℕ) (c : Connection) (t : SslTask)
    → a.java_env ≡ true
    → a.elements ≡ true
    → c.ssl_task ≡ some t
    → t.complete ≡ true
    → t.result_bytes ≡ some result
    → length result ≤ length out
    → private_key_complete_java a true true out c
      ≡ some (success (length result), result ++ drop (length result) out, free_task c)
unfolding private_key_complete_java
private_key_complete_java-succeeds a out result c t h1 h2 h3 h4 h5 room =
    ap (λ o. complete_task a o out c) h3 ∙ complete_task-succeeds a out result c t h1 h2 h4 h5 room
