-- ===== src/Verify/Callback/Tasks.antt =====
-- Verification as a task, for BoringSSL: a call that suspends the handshake, the task that Java runs,
-- and the call that picks the result up.
pub mod Throws
use netty_tcnative.Base.{
  ℕ, zero, suc, ◌≡◌, ◌⊎◌, refl, sym, ap, ◌∙◌, subst, Bool, true, false, not, Option, none, some,
  List, length, if◌then◌else◌, Bool-cases, inl, inr,
}
use netty_tcnative.Base.Int.{ℤ, pos}
use netty_tcnative.Verify.Certs.{get_certs}
use netty_tcnative.Verify.Callback.{
  Codes, Answers, missing_issuer, from_java, Task, VerifyState, VerifyResult, verify_retry,
  conclude, start_task, custom_certs, custom_chain, custom_task, cert_custom_verify, run_task,
  run_pending, finish,
}

-- The task that a call creates.
new_task : List (List ℕ) → Task
new_task certs = record { x509 = certs; did_run = false; complete = false; return_value = pos 0 }

-- The state after a call that created a task.
suspended : List (List ℕ) → List (List ℕ) → VerifyState → VerifyState
suspended sk certs s = record s {
  ssl_task = some (new_task certs);
  task_array_len = length certs;
  task_chain_num = length sk;
}

-- An SSL with no task, with a verifier, whose peer sent `sk`, of which `certs` goes to Java.
pub record Ready (a : Answers) (s : VerifyState) (sk certs : List (List ℕ)) : Type 0 where
  pub env : a.java_env ≡ true
  pub no_task : s.ssl_task ≡ none
  pub chain_sent : a.chain ≡ some sk
  pub certs_got : get_certs s.verify_depth sk a.new_object_array a.new_byte_array ≡ some certs
  pub auth : a.auth_method_string ≡ true
  pub verifier_set : s.has_verifier ≡ true

if-not : {A : Type 0} (b : Bool) (x y : A) → b ≡ true → (if not b then x else y) ≡ y
if-not b x y e = rw e refl

-- A call of a ready SSL comes down to its last choice.
reaches_choice :
    (x : Codes) (a : Answers) (s : VerifyState) (sk certs : List (List ℕ))
    → Ready a s sk certs
    → cert_custom_verify x a true s ≡ (
        if s.use_tasks
        then start_task x a sk certs s
        else (conclude x (from_java x (a.verify certs) (length certs) (length sk)), s))
unfolding cert_custom_verify custom_task custom_chain custom_certs
reaches_choice x a s sk certs r =
    if-not a.java_env _ _ r.env
    ∙ ap (λ o. custom_task x a o s) r.no_task
    ∙ ap (λ o. custom_chain x a o s) r.chain_sent
    ∙ ap (λ o. custom_certs x a sk o s) r.certs_got
    ∙ if-not a.auth_method_string _ _ r.auth
    ∙ if-not s.has_verifier _ _ r.verifier_set

start_task-suspends :
    (x : Codes) (a : Answers) (sk certs : List (List ℕ)) (s : VerifyState)
    → a.task_class ≡ true
    → a.new_task ≡ true
    → start_task x a sk certs s ≡ (verify_retry, suspended sk certs s)
unfolding start_task suspended new_task
start_task-suspends x a sk certs s h k = if-not a.task_class _ _ h ∙ if-not a.new_task _ _ k

-- The state after Java ran the pending task with the verifier `verify`.
abbrev pub after_task : (List (List ℕ) → Option ℤ) → VerifyState → VerifyState
after_task verify s = record s { ssl_task = run_pending verify s.ssl_task }

-- The same state with or without tasks.
abbrev pub with_tasks : Bool → VerifyState → VerifyState
with_tasks b s = record s { use_tasks = b }

switched :
    (b : Bool) (a : Answers) (s : VerifyState) (sk certs : List (List ℕ))
    → Ready a s sk certs
    → Ready a (with_tasks b s) sk certs
switched b a s sk certs r = record {
  env = r.env;
  no_task = r.no_task;
  chain_sent = r.chain_sent;
  certs_got = r.certs_got;
  auth = r.auth;
  verifier_set = r.verifier_set;
}

first_call :
    (x : Codes) (a : Answers) (s : VerifyState) (sk certs : List (List ℕ))
    → Ready a s sk certs
    → a.task_class ≡ true
    → a.new_task ≡ true
    → cert_custom_verify x a true (with_tasks true s)
      ≡ (verify_retry, suspended sk certs (with_tasks true s))
first_call x a s sk certs r h k =
    reaches_choice x a (with_tasks true s) sk certs (switched true a s sk certs r)
    ∙ start_task-suspends x a sk certs (with_tasks true s) h k

-- A call that finds a task.
finds_task :
    (x : Codes) (b : Answers) (s : VerifyState) (t : Task)
    → b.java_env ≡ true
    → s.ssl_task ≡ some t
    → cert_custom_verify x b true s ≡ custom_task x b (some t) s
unfolding cert_custom_verify
finds_task x b s t env e = if-not b.java_env _ _ env ∙ ap (λ o. custom_task x b o s) e

ran :
    (verify : List (List ℕ) → Option ℤ) (certs : List (List ℕ)) (answer : Option ℤ)
    → verify certs ≡ answer
    → run_pending verify (some (new_task certs)) ≡ some (finish answer (new_task certs))
unfolding run_pending run_task new_task
ran verify certs answer e = ap (λ o. some (finish o (new_task certs))) e

from_some :
    (x : Codes) (answer : ℤ) (len total : ℕ)
    → conclude x (from_java x (some answer) len total)
      ≡ conclude x (missing_issuer x answer len total)
unfolding from_java
from_some x answer len total = refl

-- A call that finds a complete task.
picks_up :
    (x : Codes) (b : Answers) (certs sk : List (List ℕ)) (answer : ℕ) (s : VerifyState)
    → let done : Task = finish (some (pos answer)) (new_task certs) in
      custom_task x b (some done) (record (suspended sk certs s) { ssl_task = some done }) ≡ (
        conclude x (missing_issuer x (pos answer) (length certs) (length sk)),
        record (suspended sk certs s) { ssl_task = none },
      )
unfolding custom_task finish new_task suspended
picks_up x b certs sk answer s = refl

-- With tasks on, the call that finds a ready SSL suspends the handshake. When the verifier answers
-- the task without an exception and with a number that is not negative (TCN_ASSERT of debug builds), the next call (whatever else has changed, if there is a Java
-- environment) gives the very verdict that a call with tasks off would have given at once, and it
-- leaves no task behind.
pub task-sync :
    (x : Codes) (a b : Answers) (s : VerifyState) (sk certs : List (List ℕ)) (answer : ℕ)
    → Ready a s sk certs
    → a.task_class ≡ true
    → a.new_task ≡ true
    → a.verify certs ≡ some (pos answer)
    → b.java_env ≡ true
    → let first : VerifyResult × VerifyState = cert_custom_verify x a true (with_tasks true s) in
      let second : VerifyResult × VerifyState =
        cert_custom_verify x b true (after_task a.verify first.1) in
      (first.0 ≡ verify_retry)
      × (second.0 ≡ (cert_custom_verify x a true (with_tasks false s)).0)
      × (second.1.ssl_task ≡ none)
unfolding suspended
task-sync x a b s sk certs answer r h k e env = (
  ap (λ p. p.0) first,
  ap (λ p. p.0) second ∙ sym (ap (λ p. p.0) sync),
  ap (λ p. p.1.ssl_task) second,
)
  where
    held : VerifyState
    held = suspended sk certs (with_tasks true s)

    done : Task
    done = finish (some (pos answer)) (new_task certs)

    verdict : VerifyResult
    verdict = conclude x (missing_issuer x (pos answer) (length certs) (length sk))

    first : cert_custom_verify x a true (with_tasks true s) ≡ (verify_retry, held)
    first = first_call x a s sk certs r h k

    picked :
        custom_task x b (some done) (record held { ssl_task = some done })
        ≡ (verdict, record held { ssl_task = none })
    picked = picks_up x b certs sk answer (with_tasks true s)

    second :
        cert_custom_verify x b true
          (after_task a.verify (cert_custom_verify x a true (with_tasks true s)).1)
        ≡ (verdict, record held { ssl_task = none })
    second =
        ap (λ p. cert_custom_verify x b true (after_task a.verify p.1)) first
        ∙ finds_task x b (after_task a.verify held) done env
            (ran a.verify certs (some (pos answer)) e)
        ∙ ap (λ o. custom_task x b (some done) (record held { ssl_task = o }))
            (ran a.verify certs (some (pos answer)) e)
        ∙ picked

    sync : cert_custom_verify x a true (with_tasks false s) ≡ (verdict, with_tasks false s)
    sync =
        reaches_choice x a (with_tasks false s) sk certs (switched false a s sk certs r)
        ∙ ap (λ o. (conclude x (from_java x o (length certs) (length sk)), with_tasks false s)) e
        ∙ ap (λ v. (v, with_tasks false s)) (from_some x (pos answer) (length certs) (length sk))
