-- ===== src/Chain/Names.antt =====
-- The client CAs of both libraries.
use netty_tcnative.Base.{
  ℕ, suc, ◌+◌, ◌≡◌, refl, sym, ap, ◌∙◌, List, [], ◌∷◌, ◌++◌, Bool, true, false, ◌&&◌, length,
  append_assoc, append-nil, arith, if◌then◌else◌, Bool-cases, inl, inr,
}
use netty_tcnative.Base.Int.{ℤ}
use netty_tcnative.Callbacks.{openssl, boringssl}
use netty_tcnative.Chain.{
  PemError, ChainState, ChainAnswers, gave_up, ended, new_x509, free_x509, in_client_cas,
  new_buffer, new_encoding, free_encoding, load_names, set0_client_cas, finish_load, load_rest,
  skip_first, enter, setup_certs, pop_free, free_buffer, ctx_use_client_ca_bio,
}
use netty_tcnative.Chain.Result.{
  all_accepted, value, Loads, accepted-taken, accepted-refused, check_errors-value,
  check_errors-place, finish_load-load_certs,
}

-- Whether BoringSSL makes and stores the name of a certificate.
abbrev pub named : ChainAnswers → ℕ → Bool
named a x = a.encode_name x && (a.new_buffer x && (a.new_stack && a.push x))

load_names-taken :
    (a : ChainAnswers) (x : ℕ) (xs : List ℕ) (e : PemError) (names : List ℕ) (n : ℕ)
    (s : ChainState)
    → named a x ≡ true
    → load_names a (x ∷ xs) e names n s
      ≡ load_names a xs e
          (names ++ (x ∷ []))
          (n + 1)
          (free_x509 (free_encoding (new_buffer (new_encoding (new_x509 s)))))
unfolding load_names
load_names-taken a x xs e names n s k = ground arith

load_names-refused :
    (a : ChainAnswers) (x : ℕ) (xs : List ℕ) (e : PemError) (names : List ℕ) (n : ℕ)
    (s : ChainState)
    → named a x ≡ false
    → (t : ChainState) × (load_names a (x ∷ xs) e names n s ≡ gave_up t)
      × (t.client_cas ≡ s.client_cas)
unfolding load_names
load_names-refused a x xs e names n s k =
    let read = new_x509 s in
    elim (Bool-cases (a.encode_name x)) [
      | inr h1 ↦ (free_x509 (pop_free a.new_stack names read), rw h1 refl, refl)
      | inl h1 ↦ elim (Bool-cases (a.new_buffer x)) [
        | inr h2 ↦ (
          free_x509 (pop_free a.new_stack names (free_encoding (new_encoding read))),
          simp (h1, h2),
          refl,
        )
        | inl h2 ↦ elim (Bool-cases (a.new_stack && a.push x)) [
          | inr h3 ↦ (
            free_x509 (
                free_buffer
                  (pop_free a.new_stack names (free_encoding (new_buffer (new_encoding read))))),
            simp (h1, h2, h3),
            refl,
          )
          | inl h3 ↦ absurd (ground arith)
        ]
      ]
    ]

-- The value and the client CAs after the loop of BoringSSL.
abbrev Replaces :
    ChainAnswers → List ℕ → PemError → List ℕ → ℕ → ChainState → ℤ × ChainState → Type 0
Replaces a xs e names n s r =
    (r.0 ≡ value (all_accepted (named a) xs) (s.errors ++ (e ∷ [])) (n + length xs))
    × (r.1.client_cas ≡ (if all_accepted (named a) xs then names ++ xs else s.client_cas))

finish_load-load_names :
    (a : ChainAnswers) (xs : List ℕ) (e : PemError) (names : List ℕ) (n : ℕ) (s : ChainState)
    → Replaces a xs e names n s
        (finish_load (set0_client_cas a.new_stack (load_names a xs e names n s)))
unfolding load_names finish_load set0_client_cas all_accepted
finish_load-load_names a [] e names n s =
    let t = record (pop_free a.new_stack names (ended e s)) { client_cas = names } in
    let es = s.errors ++ (e ∷ []) in
    (
      check_errors-value es n t ∙ ap (value true es) {x = n} (omega arith),
      check_errors-place es n t in_client_cas ∙ sym (append-nil names),
    )
finish_load-load_names a (x ∷ xs) e names n s = elim (Bool-cases (named a x)) [
  | inl k ↦
      let step =
        ap (λ l. finish_load (set0_client_cas a.new_stack l))
          (load_names-taken a x xs e names n s k) in
      let h =
        finish_load-load_names a xs e (names ++ (x ∷ [])) (n + 1)
          (free_x509 (free_encoding (new_buffer (new_encoding (new_x509 s))))) in
      let acc = accepted-taken (named a) x xs k in
      let count : n + 1 + length xs ≡ n + suc (length xs) = omega arith in
      (
        ap (λ r. r.0) step ∙ h.0 ∙ simp (acc.1, count),
        ap (λ r. r.1.client_cas) step ∙ h.1 ∙ simp (acc.1, append_assoc names (x ∷ []) xs),
      )
  | inr k ↦
      let r = load_names-refused a x xs e names n s k in
      let step = ap (λ l. finish_load (set0_client_cas a.new_stack l)) r.1 in
      let acc = accepted-refused (named a) x xs k in
      (ap (λ r. r.0) step ∙ simp (acc.1), ap (λ r. r.1.client_cas) step ∙ r.2 ∙ simp (acc.1))
]

-- Loading client CAs: OpenSSL appends the certificates up to the first that is refused, so that a
-- failure leaves some of them. BoringSSL replaces the client CAs by all of them, or changes nothing if
-- one of their names cannot be stored. Both return the number of certificates exactly if none fails and
-- the oldest error in the queue is the end of the input, and -1 otherwise; BoringSSL has then replaced
-- the client CAs if only the error is to blame.
pub use_client_ca_bio-libraries :
    (a : ChainAnswers) (xs : List ℕ) (e : PemError) (s : ChainState)
    → Loads in_client_cas a.add xs e 0 s (ctx_use_client_ca_bio openssl a xs e s)
      × ((ctx_use_client_ca_bio boringssl a xs e s).0
          ≡ value (all_accepted (named a) xs) (s.errors ++ (e ∷ [])) (length xs))
      × ((ctx_use_client_ca_bio boringssl a xs e s).1.client_cas
          ≡ (if all_accepted (named a) xs then xs else s.client_cas))
unfolding setup_certs skip_first load_rest
use_client_ca_bio-libraries a xs e s =
    let h = finish_load-load_names a xs e [] 0 (enter boringssl a s) in
    (
      finish_load-load_certs in_client_cas a xs e 0 s,
      h.0
          ∙ ap (value (all_accepted (named a) xs) (s.errors ++ (e ∷ []))) {x = 0 + length xs}
              (omega arith),
      h.1,
    )
