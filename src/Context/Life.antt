-- ===== src/Context/Life.antt =====
-- What `make` leaves when it fails, and what `free` gives back.
use netty_tcnative.Base.{
  ℕ, ◌+◌, ◌-◌, ◌≡◌, ◌⊎◌, refl, ap, ap₂, ◌∙◌, Bool, false, not, Option, none, some, ◌&&◌, arith,
  Bool-cases, inl, inr,
}
use netty_tcnative.Base.Jni.{Outcome, returned, thrown, exception}
use netty_tcnative.Context.{
  Version, tlsv1, tlsv1_3, Method, Build, buffers, modern, legacy, Choice, chosen, not_compiled,
  unsupported, choose_method, make_options, NewContext, ContextHeap, MakeAnswers, configure,
  make_with, make, context_free,
}

-- The bounds of the versions: from TLSv1 to TLSv1.3 with BoringSSL, else those of the library.
abbrev pub bounds : Build → Option Version × Option Version
bounds buffers = (some tlsv1, some tlsv1_3)
bounds modern = (none, none)
bounds (legacy x y z) = (none, none)

-- A call of `make` failed and left everything as it was; or it gave a context for the protocols and the
-- mode, and freeing it leaves everything as it was.
pub Makes : Build → Bool → Choice → ℕ → ℕ → ContextHeap → Outcome NewContext × ContextHeap → Type 0
Makes build ecc choice protocol mode h r =
    (◌≡◌ {A = Outcome NewContext × ContextHeap} r (thrown exception, h))
    ⊎ ((c : NewContext) × (r.0 ≡ returned c)
        × (choice ≡ chosen c.ssl_method)
        × (c.protocol ≡ protocol)
        × (c.mode ≡ mode)
        × (c.options ≡ make_options ecc protocol)
        × ((c.min_version, c.max_version) ≡ bounds build)
        × ((context_free false r.1).1 ≡ h))

bounded :
    (build : Build)
    → (
      (elim build [ buffers ↦ some tlsv1 | _ ↦ none ]),
      (elim build [ buffers ↦ some tlsv1_3 | _ ↦ none ]),
    )
      ≡ bounds build
bounded buffers = refl
bounded modern = refl
bounded (legacy x y z) = refl

back : (n : ℕ) → n + 1 - 1 ≡ n
back n = omega arith

freed_ctx : (h : ContextHeap) → record h { ssl_ctxs = h.ssl_ctxs + 1 - 1 } ≡ h
freed_ctx h = ap (λ n. record h { ssl_ctxs = n }) {x = h.ssl_ctxs + 1 - 1} (back h.ssl_ctxs)

freed_pool :
    (h : ContextHeap) → record h { ssl_ctxs = h.ssl_ctxs + 1 - 1; pools = h.pools + 1 - 1 } ≡ h
freed_pool h = ap₂ (λ n m. record h { ssl_ctxs = n; pools = m }) (back h.ssl_ctxs) (back h.pools)

freed_all :
    (h : ContextHeap)
    → record h { ssl_ctxs = h.ssl_ctxs + 1 - 1; locks = h.locks + 1 - 1; pools = h.pools + 1 - 1 }
      ≡ h
freed_all h =
    ap (λ n. record h { ssl_ctxs = h.ssl_ctxs + 1 - 1; pools = h.pools + 1 - 1; locks = n })
      {x = h.locks + 1 - 1} {y = h.locks} (back h.locks)
    ∙ freed_pool h

configure-Makes :
    (build : Build) (ecc : Bool) (m : Method) (protocol mode : ℕ) (a : MakeAnswers)
    (h : ContextHeap)
    → Makes build ecc
        (chosen m)
        protocol
        mode
        h
        (configure build ecc m protocol mode a (record h { ssl_ctxs = h.ssl_ctxs + 1 }))
unfolding configure Makes context_free
configure-Makes build ecc m protocol mode a h = elim (Bool-cases a.pool_create) [
  | inr k ↦ inl (simp k (ap (λ x. (thrown exception, x)) (freed_ctx h)))
  | inl k ↦ elim (Bool-cases (a.pcalloc && a.rwlock_create)) [
    | inr l ↦ inl (simp (k, l) (ap (λ x. (thrown exception, x)) (freed_pool h)))
    | inl l ↦ inr (simp (k, l) (_, refl, refl, refl, refl, refl, bounded build, freed_all h))
  ]
]

-- Whether SSL_CTX_new was called and failed in a BoringSSL build.
abbrev pub null_ctx : Build → Bool → Bool
null_ctx buffers ctx_new = not ctx_new
null_ctx modern ctx_new = false
null_ctx (legacy x y z) ctx_new = false

failed :
    (build : Build) (ecc : Bool) (m : Method) (protocol mode : ℕ) (a : MakeAnswers)
    (h : ContextHeap)
    → a.ctx_new ≡ false
    → null_ctx build a.ctx_new ≡ false
    → make_with build ecc (chosen m) protocol mode a h ≡ some (thrown exception, h)
unfolding make_with
failed buffers ecc m protocol mode a h k e = absurd (ground arith)
failed modern ecc m protocol mode a h k e = rw k refl
failed (legacy x y z) ecc m protocol mode a h k e = rw k refl

make_with-Makes :
    (build : Build) (ecc : Bool) (choice : Choice) (protocol mode : ℕ) (a : MakeAnswers)
    (h : ContextHeap)
    → null_ctx build a.ctx_new ≡ false
    → (r : Outcome NewContext × ContextHeap) × (make_with build ecc choice protocol mode a h
        ≡ some r)
      × Makes build ecc choice protocol mode h r
unfolding make_with Makes
make_with-Makes build ecc unsupported protocol mode a h e = (_, refl, inl refl)
make_with-Makes build ecc not_compiled protocol mode a h e = (_, refl, inl refl)
make_with-Makes build ecc (chosen m) protocol mode a h e = elim (Bool-cases a.ctx_new) [
  | inl k ↦ (_, rw k refl, configure-Makes build ecc m protocol mode a h)
  | inr k ↦ ((thrown exception, h), failed build ecc m protocol mode a h k e, inl refl)
]

-- In every build, for any protocols and any mode, `make` either fails with an exception, and then no
-- SSL_CTX, pool or lock is left, or gives a context with the method chosen, the protocols, the mode, their
-- options and the bounds of the versions of the build, and then `free` leaves none of its objects. Without
-- a method to choose it fails. The exception is a BoringSSL build in which SSL_CTX_new fails: there the
-- NULL pointer is used.
pub make-Makes :
    (build : Build) (ecc : Bool) (protocol mode : ℕ) (a b : MakeAnswers) (h : ContextHeap)
    → null_ctx build a.ctx_new ≡ false
    → b.ctx_new ≡ false
    → ((r : Outcome NewContext × ContextHeap) × (make build ecc protocol mode a h ≡ some r)
        × Makes build ecc (choose_method build protocol mode) protocol mode h r)
      × (make buffers ecc protocol mode b h ≡ none)
unfolding make choose_method make_with
make-Makes build ecc protocol mode a b h e f =
    (make_with-Makes build ecc (choose_method build protocol mode) protocol mode a h e, rw f refl)
