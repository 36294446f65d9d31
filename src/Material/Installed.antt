-- ===== src/Material/Installed.antt =====
-- What a connection presents after `setKeyMaterial`.
use netty_tcnative.Base.{
  ℕ, ◌+◌, ◌-◌, ◌≡◌, ◌≢◌, ◌⊎◌, refl, sym, ap, ◌∙◌, List, [], ◌∷◌, ◌++◌, Bool, true, false, Option,
  none, some, append_assoc, append-nil, arith, Bool-cases, inl, inr, not, ◌&&◌, if◌then◌else◌,
}
use netty_tcnative.Base.Jni.{Outcome, returned, thrown, exception}
use netty_tcnative.Callbacks.{openssl, boringssl}
use netty_tcnative.Chain.Result.{all_accepted}
use netty_tcnative.Material.{
  Presented, MaterialAnswers, Done, with_leaf, has_certs, add_chain, clear_and_add, use_key,
  set_key_material_openssl, set_key_material_boringssl, set_key_material,
}

-- The key that is presented afterwards: without a new one the old one stays.
abbrev pub kept_key : Option ℕ → Presented → Option ℕ
kept_key none p = p.key
kept_key (some k) p = some k

add_chain-returned :
    (a : MaterialAnswers) (refused : Bool) (xs : List ℕ) (p : Presented)
    → (add_chain a refused xs p).0 ≡ returned tt
    → (refused ≡ false)
      × ((add_chain a refused xs p).1.leaf ≡ p.leaf)
      × ((add_chain a refused xs p).1.key ≡ p.key)
      × ((add_chain a refused xs p).1.chain ≡ p.chain ++ xs)
unfolding add_chain
add_chain-returned a true [] p e = cc
add_chain-returned a false [] p e = (refl, refl, refl, sym (append-nil p.chain))
add_chain-returned a refused (x ∷ xs) p e = elim (Bool-cases (a.add1 x)) [
  | inr h ↦ absurd (ground arith)
  | inl h ↦
      let next =
        add_chain-returned a refused xs (record p { chain = p.chain ++ (x ∷ []) }) (simp h at e) in
      (next.0, simp h next.1, simp h next.2, simp h (next.3 ∙ append_assoc p.chain (x ∷ []) xs))
]

-- With nothing refused, the whole rest of the chain is installed.
add_chain-all :
    (a : MaterialAnswers) (refused : Bool) (xs : List ℕ) (p : Presented)
    → ((x : ℕ) → a.add1 x ≡ true)
    → add_chain a refused xs p
      ≡ ((if refused then thrown exception else returned tt), record p { chain = p.chain ++ xs })
unfolding add_chain
add_chain-all a true [] p h =
    ap (λ c. (thrown exception, record p { chain = c })) (sym (append-nil p.chain))
add_chain-all a false [] p h =
    ap (λ c. (returned tt, record p { chain = c })) (sym (append-nil p.chain))
add_chain-all a refused (x ∷ xs) p h = simp (h x) (
    add_chain-all a refused xs (record p { chain = p.chain ++ (x ∷ []) }) h
    ∙ ap (λ c. ((if refused then thrown exception else returned tt), record p { chain = c }))
        (append_assoc p.chain (x ∷ []) xs))

-- A call that returns has put this leaf, this key and this chain in place.
abbrev pub Presents : Done → Option ℕ → Option ℕ → List ℕ → Type 0
Presents r leaf key chain = (r.1.leaf ≡ leaf) × (r.1.key ≡ key) × (r.1.chain ≡ chain)

clear_and_add-returned :
    (a : MaterialAnswers) (refused : Bool) (xs : List ℕ) (p : Presented)
    → (clear_and_add a refused xs p).0 ≡ returned tt
    → (refused ≡ false) × Presents (clear_and_add a refused xs p) p.leaf p.key xs
clear_and_add-returned a refused xs p e = elim (Bool-cases a.clear_chain) [
  | inr h ↦ absurd (ground arith)
  | inl h ↦
      let next = add_chain-returned a refused xs (record p { chain = [] }) (simp h at e) in
      (next.0, (simp h next.1, simp h next.2, simp h next.3))
]

use_key-returned :
    (a : MaterialAnswers) (refused : Bool) (key : Option ℕ) (xs : List ℕ) (p : Presented)
    → (use_key a refused key xs p).0 ≡ returned tt
    → (refused ≡ false) × Presents (use_key a refused key xs p) p.leaf (kept_key key p) xs
unfolding use_key
use_key-returned a refused none xs p e = clear_and_add-returned a refused xs p e
use_key-returned a refused (some k) xs p e = elim (Bool-cases a.use_private_key) [
  | inr h ↦ absurd (ground arith)
  | inl h ↦ elim (Bool-cases a.check_private_key) [
    | inr l ↦ absurd (ground arith)
    | inl l ↦
        let next =
          clear_and_add-returned a refused xs (record p { key = some k }) (simp (h, l) at e) in
        (next.0, (simp (h, l) next.1.0, simp (h, l) next.1.1, simp (h, l) next.1.2))
  ]
]

impossible : true ≢ false
impossible e = cc

back : (n : ℕ) → n + 1 - 1 ≡ n
back n = omega arith

openssl-returned :
    (a : MaterialAnswers) (chain : List ℕ) (key : Option ℕ) (p : Presented)
    → (set_key_material_openssl a chain key p).0 ≡ returned tt
    → (x : ℕ) × (xs : List ℕ) × (chain ≡ x ∷ xs)
      × Presents
          (set_key_material_openssl a chain key p)
          (some x)
          (kept_key key (with_leaf a x p))
          xs
unfolding set_key_material_openssl
openssl-returned a [] key p e = absurd (impossible (use_key-returned a true key [] p e).0)
openssl-returned a (x ∷ xs) key p e = elim (Bool-cases (a.use_certificate x)) [
  | inr h ↦ absurd (impossible (use_key-returned a true key xs p (simp h at e)).0)
  | inl h ↦
      let next = use_key-returned a false key xs (with_leaf a x p) (simp h at e) in
      (x, xs, refl, (simp h next.1.0, simp h next.1.1, simp h next.1.2))
]

-- Whether OpenSSL takes the key, and everything that a call gives it.
unfoldable pub takes_key : MaterialAnswers → Option ℕ → Bool
takes_key a none = true
takes_key a (some k) = a.use_private_key && a.check_private_key

unfoldable pub takes : MaterialAnswers → List ℕ → Option ℕ → Bool
takes a [] key = false
takes a (x ∷ xs) key =
    a.use_certificate x && (takes_key a key && (a.clear_chain && all_accepted a.add1 xs))

abbrev pub ends : Bool → Outcome (Unit {0})
ends b = if b then returned tt else thrown exception

add_chain-ends :
    (a : MaterialAnswers) (refused : Bool) (xs : List ℕ) (p : Presented)
    → (add_chain a refused xs p).0 ≡ ends (not refused && all_accepted a.add1 xs)
unfolding add_chain all_accepted
add_chain-ends a true [] p = refl
add_chain-ends a false [] p = refl
add_chain-ends a refused (x ∷ xs) p =
    ground (arith, add_chain-ends a refused xs (record p { chain = p.chain ++ (x ∷ []) }))

use_key-ends :
    (a : MaterialAnswers) (refused : Bool) (key : Option ℕ) (xs : List ℕ) (p : Presented)
    → (use_key a refused key xs p).0
      ≡ ends (not refused && (takes_key a key && (a.clear_chain && all_accepted a.add1 xs)))
unfolding use_key takes_key
use_key-ends a refused none xs p =
    ground (arith, add_chain-ends a refused xs (record p { chain = [] }))
use_key-ends a refused (some k) xs p =
    ground (arith, add_chain-ends a refused xs (record p { key = some k; chain = [] }))

openssl-ends :
    (a : MaterialAnswers) (chain : List ℕ) (key : Option ℕ) (p : Presented)
    → (set_key_material_openssl a chain key p).0 ≡ ends (takes a chain key)
unfolding set_key_material_openssl takes
openssl-ends a [] key p = use_key-ends a true key [] p
openssl-ends a (x ∷ xs) key p = elim (Bool-cases (a.use_certificate x)) [
  | inl h ↦ simp h (use_key-ends a false key xs (with_leaf a x p))
  | inr h ↦ simp h (use_key-ends a true key xs p)
]

openssl-cases :
    (a : MaterialAnswers) (chain : List ℕ) (key : Option ℕ) (p : Presented)
    → ((set_key_material_openssl a chain key p).0 ≡ thrown exception)
      ⊎ ((x : ℕ) × (xs : List ℕ) × (chain ≡ x ∷ xs)
          × ((set_key_material_openssl a chain key p).0 ≡ returned tt)
          × Presents
              (set_key_material_openssl a chain key p)
              (some x)
              (kept_key key (with_leaf a x p))
              xs)
openssl-cases a chain key p = elim (Bool-cases (takes a chain key)) [
  | inr h ↦ inl (openssl-ends a chain key p ∙ ap ends h)
  | inl h ↦
      let e = openssl-ends a chain key p ∙ ap ends h in
      let q = openssl-returned a chain key p e in inr (q.0, q.1, q.2, e, q.3)
]

boringssl-cases :
    (a : MaterialAnswers) (chain : List ℕ) (key : Option ℕ) (p : Presented)
    → (◌≡◌ {A = Done} (set_key_material_boringssl a chain key p) (thrown exception, p))
      ⊎ ((x : ℕ) × (xs : List ℕ) × (chain ≡ x ∷ xs)
          × (◌≡◌ {A = Done}
              (set_key_material_boringssl a chain key p)
              (returned tt, record p { leaf = some x; key = key; chain = xs })))
unfolding set_key_material_boringssl
boringssl-cases a [] key p = elim (Bool-cases a.malloc) [
  | inr h ↦ inl (rw h refl)
  | inl h ↦ inl (simp h (ap (λ n. (thrown exception, record p { arrays = n })) (back p.arrays)))
]
boringssl-cases a (x ∷ xs) key p = elim (Bool-cases a.malloc) [
  | inr h ↦ inl (rw h refl)
  | inl h ↦ elim (Bool-cases a.set_chain_and_key) [
    | inr l ↦
        inl (simp (h, l) (ap (λ n. (thrown exception, record p { arrays = n })) (back p.arrays)))
    | inl l ↦ inr (
      x,
      xs,
      refl,
      simp (h, l)
          (ap (λ n. (returned tt, record p { leaf = some x; key = key; chain = xs; arrays = n }))
            (back p.arrays)),
    )
  ]
]

boringssl-ends :
    (a : MaterialAnswers) (chain : List ℕ) (key : Option ℕ) (p : Presented)
    → (set_key_material_boringssl a chain key p).0
      ≡ ends (a.malloc && (has_certs chain && a.set_chain_and_key))
unfolding set_key_material_boringssl
boringssl-ends a chain key p = ground arith

-- For any chain, also an empty one, setKeyMaterial of OpenSSL throws, or it returns, and then the chain is
-- not empty, its first certificate is the leaf, the others are the chain, and the key is the new one, or, if
-- none was given, the old one as far as the library kept it beside the new leaf. In a BoringSSL build the
-- call sets the leaf, the chain and the key that was given, if any, of a chain that is not empty, or throws
-- and changes nothing; on every way the array is freed. OpenSSL
-- returns exactly if it takes the certificates and the key and clears the old chain, BoringSSL if the array is
-- made, the chain is not empty and SSL_set_chain_and_key succeeds.
pub set_key_material-Presents :
    (a : MaterialAnswers) (chain : List ℕ) (key : Option ℕ) (p : Presented)
    → (((set_key_material openssl false (some chain) key a p).0 ≡ thrown exception)
        ⊎ ((x : ℕ) × (xs : List ℕ) × (chain ≡ x ∷ xs)
            × ((set_key_material openssl false (some chain) key a p).0 ≡ returned tt)
            × Presents
                (set_key_material openssl false (some chain) key a p)
                (some x)
                (kept_key key (with_leaf a x p))
                xs))
      × ((◌≡◌ {A = Done}
            (set_key_material boringssl false (some chain) key a p)
            (thrown exception, p))
          ⊎ ((x : ℕ) × (xs : List ℕ) × (chain ≡ x ∷ xs)
              × (◌≡◌ {A = Done}
                  (set_key_material boringssl false (some chain) key a p)
                  (returned tt, record p { leaf = some x; key = key; chain = xs }))))
      × ((set_key_material openssl false (some chain) key a p).0 ≡ ends (takes a chain key))
      × ((set_key_material boringssl false (some chain) key a p).0
          ≡ ends (a.malloc && (has_certs chain && a.set_chain_and_key)))
unfolding set_key_material
set_key_material-Presents a chain key p = (
  openssl-cases a chain key p,
  boringssl-cases a chain key p,
  openssl-ends a chain key p,
  boringssl-ends a chain key p,
)

-- When OpenSSL refuses the first certificate but nothing else, setKeyMaterial throws and yet installs the
-- new key and the rest of the new chain beside the old leaf.
pub set_key_material-refused :
    (a : MaterialAnswers) (x k : ℕ) (xs : List ℕ) (p : Presented)
    → a.use_certificate x ≡ false
    → a.use_private_key ≡ true
    → a.check_private_key ≡ true
    → a.clear_chain ≡ true
    → ((y : ℕ) → a.add1 y ≡ true)
    → ◌≡◌ {A = Done}
        (set_key_material openssl false (some (x ∷ xs)) (some k) a p)
        (thrown exception, record p { key = some k; chain = xs })
unfolding set_key_material set_key_material_openssl use_key
set_key_material-refused a x k xs p h1 h2 h3 h4 h5 =
    simp (h1, h2, h3, h4) (add_chain-all a true xs (record p { key = some k; chain = [] }) h5)
