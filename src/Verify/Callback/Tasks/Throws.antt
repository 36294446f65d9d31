-- ===== src/Verify/Callback/Tasks/Throws.antt =====
-- A verifier that throws, with tasks and without.
use netty_tcnative.Base.{ℕ, zero, suc, ◌≡◌, ◌⊎◌, true, false, Option, none, List}
use netty_tcnative.Base.Int.{ℤ}
use netty_tcnative.Verify.Callback.{Codes, Answers, Task, VerifyState, cert_custom_verify}
use netty_tcnative.Verify.Callback.Tasks.{after_task}

-- The state after `n` more rounds in which Java runs the task and the handshake is tried again.
unfoldable pub poll : ℕ → Codes → Answers → (List (List ℕ) → Option ℤ) → VerifyState → VerifyState
poll zero x b verify s = s
poll (suc n) x b verify s = poll n x b verify (cert_custom_verify x b true (after_task verify s)).1

-- Running this task never completes it.
abbrev Stuck : (List (List ℕ) → Option ℤ) → Task → Type 0
Stuck verify t = (t.complete ≡ false) × ((t.did_run ≡ true) ⊎ (verify t.x509 ≡ none))
