-- ===== src/Chain/Result.antt =====
-- Which certificates the loaders take, and what they return.
use netty_tcnative.Base.{
  ℕ, suc, ◌+◌, ◌≡◌, refl, sym, ap, ◌∙◌, List, [], ◌∷◌, ◌++◌, Bool, true, false, ◌&&◌, length,
  append_assoc, append-nil, arith, if◌then◌else◌, Bool-cases, inl, inr,
}
use netty_tcnative.Base.Int.{ℤ, pos}
use netty_tcnative.Callbacks.{openssl}
use netty_tcnative.Chain.{
  PemError, no_start_line, other, ChainState, ChainAnswers, gave_up, ended, new_x509, free_x509,
  Place, in_client_cas, in_extra_chain, in_ssl_chain, keep, load_certs, minus_one, check_errors,
  finish_load, load_rest, skip_first, setup_certs, ssl_use_certificate_chain_bio,
}

-- The certificates before the first one that is refused.
unfoldable pub accepted : (ℕ → Bool) → List ℕ → List ℕ
accepted f [] = []
accepted f (x ∷ xs) = if f x then x ∷ accepted f xs else []

unfoldable pub all_accepted : (ℕ → Bool) → List ℕ → Bool
all_accepted f [] = true
all_accepted f (x ∷ xs) = f x && all_accepted f xs

-- The value of a loader: the number of certificates if all were accepted and the oldest error in the
-- queue is the end of the input.
abbrev pub value : Bool → List PemError → ℕ → ℤ
value false es n = minus_one
value true [] n = pos n
value true (no_start_line ∷ es) n = pos n
value true (other ∷ es) n = minus_one

abbrev pub place : Place → ChainState → List ℕ
place in_client_cas s = s.client_cas
place in_extra_chain s = s.extra_chain
place in_ssl_chain s = s.ssl_chain

abbrev pub same_place : Place → Place → Bool
same_place in_client_cas in_client_cas = true
same_place in_extra_chain in_extra_chain = true
same_place in_ssl_chain in_ssl_chain = true
same_place _ _ = false

place-keep :
    (p q : Place) (x : ℕ) (s : ChainState)
    → place q (keep p x (free_x509 (new_x509 s)))
      ≡ place q s ++ (if same_place p q then x ∷ [] else [])
place-keep in_client_cas in_client_cas x s = refl
place-keep in_client_cas in_extra_chain x s = sym (append-nil s.extra_chain)
place-keep in_client_cas in_ssl_chain x s = sym (append-nil s.ssl_chain)
place-keep in_extra_chain in_client_cas x s = sym (append-nil s.client_cas)
place-keep in_extra_chain in_extra_chain x s = refl
place-keep in_extra_chain in_ssl_chain x s = sym (append-nil s.ssl_chain)
place-keep in_ssl_chain in_client_cas x s = sym (append-nil s.client_cas)
place-keep in_ssl_chain in_extra_chain x s = sym (append-nil s.extra_chain)
place-keep in_ssl_chain in_ssl_chain x s = refl

errors-keep :
    (p : Place) (x : ℕ) (s : ChainState) → (keep p x (free_x509 (new_x509 s))).errors ≡ s.errors
errors-keep in_client_cas x s = refl
errors-keep in_extra_chain x s = refl
errors-keep in_ssl_chain x s = refl

pub check_errors-value :
    (es : List PemError) (n : ℕ) (s : ChainState) → (check_errors es n s).0 ≡ value true es n
unfolding check_errors
check_errors-value [] n s = refl
check_errors-value (no_start_line ∷ es) n s = refl
check_errors-value (other ∷ es) n s = refl

pub check_errors-place :
    (es : List PemError) (n : ℕ) (s : ChainState) (q : Place)
    → place q (check_errors es n s).1 ≡ place q s
unfolding check_errors
check_errors-place [] n s q = refl
check_errors-place (no_start_line ∷ es) n s in_client_cas = refl
check_errors-place (no_start_line ∷ es) n s in_extra_chain = refl
check_errors-place (no_start_line ∷ es) n s in_ssl_chain = refl
check_errors-place (other ∷ es) n s q = refl

abbrev only_if : Bool → List ℕ → List ℕ
only_if b xs = if b then xs else []

-- A loader that puts certificates at the place `p`: its value, and every place afterwards.
pub record Loads (p : Place) (f : ℕ → Bool) (xs : List ℕ) (e : PemError) (n : ℕ) (s : ChainState)
    (r : ℤ × ChainState) : Type 0 where
  pub value_is : r.0 ≡ value (all_accepted f xs) (s.errors ++ (e ∷ [])) (n + length xs)
  pub places : (q : Place) → place q r.1 ≡ place q s ++ only_if (same_place p q) (accepted f xs)

ended-place : (e : PemError) (s : ChainState) (q : Place) → place q (ended e s) ≡ place q s
ended-place e s in_client_cas = refl
ended-place e s in_extra_chain = refl
ended-place e s in_ssl_chain = refl

freed-place : (s : ChainState) (q : Place) → place q (free_x509 (new_x509 s)) ≡ place q s
freed-place s in_client_cas = refl
freed-place s in_extra_chain = refl
freed-place s in_ssl_chain = refl

only_if-nil : (b : Bool) → only_if b [] ≡ []
only_if-nil true = refl
only_if-nil false = refl

only_if-cons :
    (b : Bool) (x : ℕ) (us ys : List ℕ)
    → (us ++ only_if b (x ∷ [])) ++ only_if b ys ≡ us ++ only_if b (x ∷ ys)
only_if-cons true x us ys = append_assoc us (x ∷ []) ys
only_if-cons false x us ys = append-nil (us ++ [])

load_certs-taken :
    (p : Place) (a : ChainAnswers) (x : ℕ) (xs : List ℕ) (e : PemError) (n : ℕ) (s : ChainState)
    → a.add x ≡ true
    → load_certs p a (x ∷ xs) e n s
      ≡ load_certs p a xs e (n + 1) (keep p x (free_x509 (new_x509 s)))
unfolding load_certs
load_certs-taken p a x xs e n s k = rw k refl

load_certs-refused :
    (p : Place) (a : ChainAnswers) (x : ℕ) (xs : List ℕ) (e : PemError) (n : ℕ) (s : ChainState)
    → a.add x ≡ false
    → load_certs p a (x ∷ xs) e n s ≡ gave_up (free_x509 (new_x509 s))
unfolding load_certs
load_certs-refused p a x xs e n s k = rw k refl

pub accepted-taken :
    (f : ℕ → Bool) (x : ℕ) (xs : List ℕ)
    → f x ≡ true
    → (accepted f (x ∷ xs) ≡ x ∷ accepted f xs) × (all_accepted f (x ∷ xs) ≡ all_accepted f xs)
unfolding accepted all_accepted
accepted-taken f x xs k = (rw k refl, rw k refl)

pub accepted-refused :
    (f : ℕ → Bool) (x : ℕ) (xs : List ℕ)
    → f x ≡ false
    → (accepted f (x ∷ xs) ≡ []) × (all_accepted f (x ∷ xs) ≡ false)
unfolding accepted all_accepted
accepted-refused f x xs k = (rw k refl, rw k refl)

pub finish_load-load_certs :
    (p : Place) (a : ChainAnswers) (xs : List ℕ) (e : PemError) (n : ℕ) (s : ChainState)
    → Loads p a.add xs e n s (finish_load (load_certs p a xs e n s))
unfolding finish_load load_certs accepted all_accepted
finish_load-load_certs p a [] e n s = record {
  value_is =
      check_errors-value (s.errors ++ (e ∷ [])) n (ended e s)
      ∙ ap (value true (s.errors ++ (e ∷ []))) {x = n} (omega arith);
  places = λ q.
      check_errors-place (s.errors ++ (e ∷ [])) n (ended e s) q
      ∙ ended-place e s q
      ∙ sym (append-nil (place q s))
      ∙ ap (λ k. place q s ++ k) (sym (only_if-nil (same_place p q)));
}
finish_load-load_certs p a (x ∷ xs) e n s =
    let t = keep p x (free_x509 (new_x509 s)) in
    let h = finish_load-load_certs p a xs e (n + 1) t in
    let f = a.add in
    elim (Bool-cases (a.add x)) [
      | inl k ↦
          let step = ap finish_load (load_certs-taken p a x xs e n s k) in
          let acc = accepted-taken f x xs k in
          let count : n + 1 + length xs ≡ n + suc (length xs) = omega arith in
          record {
            value_is = ap (λ r. r.0) step ∙ h.value_is ∙ simp (acc.1, errors-keep p x s, count);
            places = λ q.
                ap (λ r. place q r.1) step
                ∙ h.places q
                ∙ ap (λ k. k ++ only_if (same_place p q) (accepted f xs)) (place-keep p q x s)
                ∙ only_if-cons (same_place p q) x (place q s) (accepted f xs)
                ∙ ap (λ k. place q s ++ only_if (same_place p q) k) (sym acc.0);
          }
      | inr k ↦
          let step = ap finish_load (load_certs-refused p a x xs e n s k) in
          let acc = accepted-refused f x xs k in
          record {
            value_is = ap (λ r. r.0) step ∙ simp acc.1;
            places = λ q.
                ap (λ r. place q r.1) step
                ∙ freed-place s q
                ∙ sym (append-nil (place q s))
                ∙ ap (λ k. place q s ++ k)
                    (sym (only_if-nil (same_place p q))
                      ∙ ap (only_if (same_place p q)) (sym acc.0));
          }
    ]

-- Loading an extra chain with OpenSSL: the old chain is dropped, the new one is the certificates (after
-- the skipped one) up to the first that is refused, and nothing else changes. The value is the number of
-- certificates exactly if none is refused and the oldest error in the queue, be it one from before the
-- call, is the end of the input, and -1 otherwise. The chain of an SSL is extended, not replaced.
pub setup_certs-extra_chain :
    (a : ChainAnswers) (x : ℕ) (xs : List ℕ) (e : PemError) (s : ChainState)
    → Loads in_extra_chain a.add xs e 0
        (record s { extra_chain = [] })
        (setup_certs openssl false false a xs e s)
      × Loads in_extra_chain a.add xs e 0
          (record s { extra_chain = [] })
          (setup_certs openssl true false a (x ∷ xs) e s)
      × Loads in_ssl_chain a.add xs e 0 s (ssl_use_certificate_chain_bio false a xs e s)
      × ((setup_certs openssl true false a [] e s).0 ≡ minus_one)
unfolding setup_certs skip_first load_rest ssl_use_certificate_chain_bio
setup_certs-extra_chain a x xs e s =
    let h =
      finish_load-load_certs in_extra_chain a xs e 0
        (record (free_x509 (new_x509 s)) { extra_chain = [] }) in
    (
      finish_load-load_certs in_extra_chain a xs e 0 (record s { extra_chain = [] }),
      record {
        value_is = h.value_is;
        places = λ q.
            h.places q
            ∙ elim q
                as (λ q.
                  place q (record (free_x509 (new_x509 s)) { extra_chain = [] })
                    ++ only_if (same_place in_extra_chain q) (accepted a.add xs)
                  ≡ place q (record s { extra_chain = [] })
                    ++ only_if (same_place in_extra_chain q) (accepted a.add xs)) [
                      | in_client_cas ↦ refl
                      | in_extra_chain ↦ refl
                      | in_ssl_chain ↦ refl
                    ];
      },
      finish_load-load_certs in_ssl_chain a xs e 0 s,
      refl,
    )
