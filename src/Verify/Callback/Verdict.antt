-- ===== src/Verify/Callback/Verdict.antt =====
-- When a verification callback accepts a chain.
use netty_tcnative.Base.{
  ℕ, ◌≡◌, ◌≢◌, ◌⊎◌, ◌↔◌, refl, ap, subst, Bool, true, false, ◌&&◌, Option, none, some, List, length,
  take, ltb, if◌then◌else◌, arith, Bool-cases, inl, inr,
}
use netty_tcnative.Base.Int.{ℤ, is_negative, int_eq, int_eq_sound, int_eq_refl}
use netty_tcnative.Verify.Certs.{get_certs, get_certs-take}
use netty_tcnative.Verify.Callback.{
  Codes, Answers, missing_issuer, from_java, verify_certs, verify_chain, ssl_cert_verify, Task,
  VerifyState, VerifyResult, verify_ok, verify_retry, aborted, conclude, start_task, custom_certs,
  custom_chain, custom_task, cert_custom_verify,
}

-- The codes of failures are not X509_V_OK.
abbrev pub AreDistinct : Codes → Type 0
AreDistinct x = (x.unspecified ≢ x.ok) × (x.no_issuer ≢ x.ok)

missing_issuer-ok :
    (x : Codes) (result : ℤ) (len total : ℕ)
    → AreDistinct x
    → missing_issuer x result len total ≡ x.ok
    → result ≡ x.ok
unfolding missing_issuer
missing_issuer-ok x result len total d e =
    elim (Bool-cases (int_eq result x.unspecified && ltb len total)) [
      | inl h ↦ absurd (d.1 (rw h at e))
      | inr h ↦ (rw h at e)
    ]

pub from_java-ok :
    (x : Codes) (answer : Option ℤ) (len total : ℕ)
    → AreDistinct x
    → from_java x answer len total ≡ x.ok
    → answer ≡ some x.ok
unfolding from_java
from_java-ok x none len total d e = absurd (d.0 e)
from_java-ok x (some result) len total d e = ap some (missing_issuer-ok x result len total d e)

verify_certs-ok :
    (x : Codes) (a : Answers) (sk : List (List ℕ)) (o : Option (List (List ℕ)))
    → AreDistinct x
    → verify_certs x a sk o ≡ x.ok
    → (certs : List (List ℕ)) × (o ≡ some certs) × (a.verify certs ≡ some x.ok)
unfolding verify_certs
verify_certs-ok x a sk none d e = absurd (d.0 e)
verify_certs-ok x a sk (some certs) d e = elim (Bool-cases a.auth_method_string) [
  | inl h ↦ (certs, refl, from_java-ok x (a.verify certs) (length certs) (length sk) d (rw h at e))
  | inr h ↦ absurd (d.0 (rw h at e))
]

verify_chain-ok :
    (x : Codes) (a : Answers) (depth : ℕ) (o : Option (List (List ℕ)))
    → AreDistinct x
    → verify_chain x a depth o ≡ x.ok
    → (sk : List (List ℕ)) × (o ≡ some sk) × (a.verify (take depth sk) ≡ some x.ok)
unfolding verify_chain
verify_chain-ok x a depth none d e = absurd (d.0 e)
verify_chain-ok x a depth (some sk) d e =
    let h = verify_certs-ok x a sk (get_certs depth sk a.new_object_array a.new_byte_array) d e in
    let t = get_certs-take depth sk a.new_object_array a.new_byte_array h.1 in
    (sk, refl, subst (λ c. a.verify c ≡ some x.ok) t.0 h.2)

-- What an acceptance by `SSL_cert_verify` implies.
abbrev pub Approved : Codes → Answers → ℕ → Type 0
Approved x a depth =
    (a.java_env ≡ true)
    × ((sk : List (List ℕ)) × (a.chain ≡ some sk) × (a.verify (take depth sk) ≡ some x.ok))

-- `SSL_cert_verify` accepts only with good reason: whatever fails in OpenSSL or in the JNI, when it
-- returns 1 the peer has sent a chain and the Java verifier has answered X509_V_OK, without an
-- exception, to exactly the first `verify_depth` certificates of it. In every case it returns 1
-- exactly when the error that it sets is X509_V_OK. The codes of failures are taken to differ from
-- X509_V_OK.
pub ssl_cert_verify-Approved :
    (x : Codes) (a : Answers) (depth : ℕ)
    → AreDistinct x
    → ((ssl_cert_verify x a depth).0 ≡ 1 → Approved x a depth)
      × (((ssl_cert_verify x a depth).0 ≡ 1) ↔ ((ssl_cert_verify x a depth).1 ≡ x.ok))
unfolding ssl_cert_verify
ssl_cert_verify-Approved x a depth d =
    ((λ e. approved (error-ok e)), (error-ok, λ e. rw (e, int_eq_refl x.ok) refl))
  where
    result : ℤ
    result = (ssl_cert_verify x a depth).1

    error-ok : (ssl_cert_verify x a depth).0 ≡ 1 → result ≡ x.ok
    error-ok e = elim (Bool-cases (int_eq result x.ok)) [
      | inl h ↦ int_eq_sound result x.ok h
      | inr h ↦ absurd (omega (arith, (rw h at e)))
    ]

    approved : result ≡ x.ok → Approved x a depth
    approved e = elim (Bool-cases a.java_env) [
      | inl h ↦ (h, verify_chain-ok x a depth a.chain d (simp h at e))
      | inr h ↦ absurd (d.0 (rw h at e))
    ]

conclude-ok : (x : Codes) (result : ℤ) → conclude x result ≡ verify_ok → result ≡ x.ok
unfolding conclude
conclude-ok x result e = elim (Bool-cases (int_eq result x.ok)) [
  | inl h ↦ int_eq_sound result x.ok h
  | inr h ↦ absurd (refused (rw h at e))
]
  where
    refused : {r : ℤ} → VerifyResult.verify_invalid r ≢ verify_ok
    refused e = cc

conclude-unspecified : (x : Codes) → AreDistinct x → conclude x x.unspecified ≢ verify_ok
conclude-unspecified x d e = d.0 (conclude-ok x x.unspecified e)

-- The Java verifier has answered X509_V_OK to a part of the peer's chain in this call.
abbrev pub ApprovedNow : Codes → Answers → VerifyState → Type 0
ApprovedNow x a s =
    (s.has_verifier ≡ true)
    × (s.use_tasks ≡ false)
    × ((sk : List (List ℕ)) × (a.chain ≡ some sk) × (a.verify (take s.verify_depth sk) ≡ some x.ok))

start_task-not_ok :
    (x : Codes) (a : Answers) (sk certs : List (List ℕ)) (s : VerifyState)
    → AreDistinct x
    → (start_task x a sk certs s).0 ≢ verify_ok
unfolding start_task
start_task-not_ok x a sk certs s d e = elim (Bool-cases a.task_class) [
  | inr h ↦ conclude-unspecified x d (rw h at e)
  | inl h ↦ elim (Bool-cases a.new_task) [
    | inr k ↦ conclude-unspecified x d (rw (h, k) at e)
    | inl k ↦ not_retry (rw (h, k) at e)
  ]
]
  where
    not_retry : verify_retry ≢ verify_ok
    not_retry e = cc

issuer-ok :
    (x : Codes) (b : Bool)
    → AreDistinct x
    → conclude x (if b then x.no_issuer else x.unspecified) ≢ verify_ok
issuer-ok x true d e = d.1 (conclude-ok x x.no_issuer e)
issuer-ok x false d e = conclude-unspecified x d e

custom_certs-ok :
    (x : Codes) (a : Answers) (sk : List (List ℕ)) (o : Option (List (List ℕ))) (s : VerifyState)
    → AreDistinct x
    → (custom_certs x a sk o s).0 ≡ verify_ok
    → (s.has_verifier ≡ true)
      × (s.use_tasks ≡ false)
      × ((certs : List (List ℕ)) × (o ≡ some certs) × (a.verify certs ≡ some x.ok))
unfolding custom_certs
custom_certs-ok x a sk none s d e = absurd (conclude-unspecified x d e)
custom_certs-ok x a sk (some certs) s d e = elim (Bool-cases a.auth_method_string) [
  | inr h ↦ absurd (conclude-unspecified x d (rw h at e))
  | inl h ↦ elim (Bool-cases s.has_verifier) [
    | inr k ↦ absurd (issuer-ok x (ltb (length certs) (length sk)) d (rw (h, k) at e))
    | inl k ↦ elim (Bool-cases s.use_tasks) [
      | inl l ↦ absurd (start_task-not_ok x a sk certs s d (simp (h, k, l) at e))
      | inr l ↦ (
        k,
        l,
        (
          certs,
          refl,
          from_java-ok x (a.verify certs) (length certs) (length sk) d
              (conclude-ok x _ (rw (h, k, l) at e)),
        ),
      )
    ]
  ]
]

custom_chain-ok :
    (x : Codes) (a : Answers) (o : Option (List (List ℕ))) (s : VerifyState)
    → AreDistinct x
    → (custom_chain x a o s).0 ≡ verify_ok
    → (s.has_verifier ≡ true)
      × (s.use_tasks ≡ false)
      × ((sk : List (List ℕ)) × (o ≡ some sk) × (a.verify (take s.verify_depth sk) ≡ some x.ok))
unfolding custom_chain
custom_chain-ok x a none s d e = absurd (conclude-unspecified x d e)
custom_chain-ok x a (some sk) s d e =
    let h =
      custom_certs-ok x a sk (get_certs s.verify_depth sk a.new_object_array a.new_byte_array) s d
        e in
    let t = get_certs-take s.verify_depth sk a.new_object_array a.new_byte_array h.2.1 in
    (h.0, h.1, (sk, refl, subst (λ c. a.verify c ≡ some x.ok) t.0 h.2.2))

-- The task of an earlier call has finished with X509_V_OK.
abbrev pub ApprovedByTask : Codes → VerifyState → Type 0
ApprovedByTask x s =
    (t : Task) × (s.ssl_task ≡ some t) × (t.complete ≡ true) × (t.return_value ≡ x.ok)

not_aborted : (b : Bool) (v : VerifyResult) → (if b then aborted else v) ≡ verify_ok → v ≡ verify_ok
not_aborted true v e = cc
not_aborted false v e = e

custom_task-ok :
    (x : Codes) (a : Answers) (o : Option Task) (s : VerifyState)
    → AreDistinct x
    → (custom_task x a o s).0 ≡ verify_ok
    → ((t : Task) × (o ≡ some t) × (t.complete ≡ true) × (t.return_value ≡ x.ok))
      ⊎ ((o ≡ none) × ApprovedNow x a s)
unfolding custom_task
custom_task-ok x a none s d e = inr (refl, custom_chain-ok x a a.chain s d e)
custom_task-ok x a (some t) s d e = elim (Bool-cases t.complete) [
  | inl h ↦ inl (
    t,
    refl,
    h,
    missing_issuer-ok x t.return_value s.task_array_len s.task_chain_num d (
        conclude-ok x _ (
          not_aborted (is_negative t.return_value && a.debug)
            (conclude x (missing_issuer x t.return_value s.task_array_len s.task_chain_num))
            (rw h at e))),
  )
  | inr h ↦ absurd (not_retry (rw h at e))
]
  where
    not_retry : verify_retry ≢ verify_ok
    not_retry e = cc

-- `tcn_SSL_cert_custom_verify` accepts only with good reason, whatever fails: either the task of an
-- earlier call is complete with X509_V_OK, or there is no task, tasks are off, and in this very call
-- the verifier has answered X509_V_OK to exactly the first `verify_depth` certificates of the chain.
-- The codes of failures are taken to differ from X509_V_OK.
pub cert_custom_verify-Approved :
    (x : Codes) (a : Answers) (has_context : Bool) (s : VerifyState)
    → AreDistinct x
    → (cert_custom_verify x a has_context s).0 ≡ verify_ok
    → ApprovedByTask x s ⊎ ((s.ssl_task ≡ none) × ApprovedNow x a s)
unfolding cert_custom_verify
cert_custom_verify-Approved x a false s d e = absurd (conclude-unspecified x d e)
cert_custom_verify-Approved x a true s d e = elim (Bool-cases a.java_env) [
  | inl h ↦ custom_task-ok x a s.ssl_task s d (simp h at e)
  | inr h ↦ absurd (conclude-unspecified x d (rw h at e))
]
