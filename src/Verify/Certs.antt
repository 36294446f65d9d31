-- ===== src/Verify/Certs.antt =====
-- `get_certs` of sslcontext.c: the part of the peer's chain that goes to Java.
use netty_tcnative.Base.{
  ℕ, zero, suc, ◌≤◌, min, ◌≡◌, refl, sym, ap, ◌∙◌, Bool, true, false, not, ◌||◌, Option, none, some,
  List, [], ◌∷◌, subst, length, take, ◌==◌, if◌then◌else◌, ◌>>=◌, arith, Option-cases, inl, inr,
}

-- A certificate is its DER encoding; the empty string stands for one that `i2d_X509` does not encode
-- (`length <= 0`). `new_byte_array` answers NewByteArray for each index. The loop, from index `i`.
unfoldable pub copy_certs : ℕ → ℕ → List (List ℕ) → (ℕ → Bool) → Option (List (List ℕ))
copy_certs zero i chain new_byte_array = some []
copy_certs (suc n) i [] new_byte_array = none
copy_certs (suc n) i (cert ∷ chain) new_byte_array =
    let rest = copy_certs n (suc i) chain new_byte_array in
    if length cert == 0 || not (new_byte_array i)
    then none
    else (rest >>= λ certs. some (cert ∷ certs))

-- `get_certs`: `none` is NULL. `new_object_array` answers NewObjectArray.
unfoldable pub get_certs : ℕ → List (List ℕ) → Bool → (ℕ → Bool) → Option (List (List ℕ))
get_certs verify_depth chain new_object_array new_byte_array =
    let len : ℕ = min verify_depth (length chain) in
    if not new_object_array then none else copy_certs len 0 chain new_byte_array

-- Every one of these certificates was encoded.
abbrev pub AreEncoded : List (List ℕ) → Type 0
AreEncoded [] = Unit {0}
AreEncoded (cert ∷ chain) = ((length cert == 0) ≡ false) × AreEncoded chain

copy_certs-take :
    (n i : ℕ) (chain : List (List ℕ)) (new_byte_array : ℕ → Bool) {certs : List (List ℕ)}
    → copy_certs n i chain new_byte_array ≡ some certs
    → (certs ≡ take n chain) × AreEncoded certs
unfolding copy_certs
copy_certs-take zero i chain new_byte_array e = ground arith
copy_certs-take (suc n) i [] new_byte_array e = cc
copy_certs-take (suc n) i (cert ∷ chain) new_byte_array {certs} e =
    elim (Option-cases (copy_certs n (suc i) chain new_byte_array)) [
      | inl z ↦ ground arith
      | inr (more, z) ↦
          let ih : (more ≡ take n chain) × AreEncoded more =
            copy_certs-take n (suc i) chain new_byte_array z in
          let both : (certs ≡ cert ∷ more) × ((length cert == 0) ≡ false) = ground arith in
          (both.0 ∙ ap (◌∷◌ cert) ih.0, subst AreEncoded (sym both.0) (both.1, ih.1))
    ]

copy_certs-encoded :
    (n i : ℕ) (chain : List (List ℕ)) (new_byte_array : ℕ → Bool)
    → n ≤ length chain
    → AreEncoded (take n chain)
    → ((k : ℕ) → new_byte_array k ≡ true)
    → copy_certs n i chain new_byte_array ≡ some (take n chain)
unfolding copy_certs
copy_certs-encoded zero i chain new_byte_array h enc room = refl
copy_certs-encoded (suc n) i [] new_byte_array h enc room = absurd (omega arith)
copy_certs-encoded (suc n) i (cert ∷ chain) new_byte_array h enc room =
    rw (enc.0, room i, copy_certs-encoded n (suc i) chain new_byte_array (omega arith) enc.1 room)
      refl

take-min-length : {A : Type 0} (n : ℕ) (xs : List A) → take (min n (length xs)) xs ≡ take n xs
take-min-length zero xs = ap (λ k. take k xs) {x = min 0 (length xs)} {y = 0} (omega arith)
take-min-length (suc n) [] = ap (λ k. take k []) {x = min (suc n) 0} {y = 0} (omega arith)
take-min-length (suc n) (x ∷ xs) =
    ap (λ k. take k (x ∷ xs)) {x = min (suc n) (suc (length xs))} {y = suc (min n (length xs))}
      (omega arith)
    ∙ ap (◌∷◌ x) (take-min-length n xs)

-- Whatever allocation fails, the certificates that reach Java are the first `verify_depth` of the
-- chain, in order, each of them encoded: never more, and never a part of them.
pub get_certs-take :
    (verify_depth : ℕ) (chain : List (List ℕ)) (new_object_array : Bool) (new_byte_array : ℕ → Bool)
    {certs : List (List ℕ)}
    → get_certs verify_depth chain new_object_array new_byte_array ≡ some certs
    → (certs ≡ take verify_depth chain) × AreEncoded certs
unfolding get_certs
get_certs-take verify_depth chain false new_byte_array e = cc
get_certs-take verify_depth chain true new_byte_array e =
    let h = copy_certs-take (min verify_depth (length chain)) 0 chain new_byte_array e in
    (h.0 ∙ take-min-length verify_depth chain, h.1)

-- When the first `verify_depth` certificates of the chain can be encoded and no allocation fails,
-- `get_certs` gives Java exactly these.
pub get_certs-encoded :
    (verify_depth : ℕ) (chain : List (List ℕ)) (new_byte_array : ℕ → Bool)
    → AreEncoded (take verify_depth chain)
    → ((k : ℕ) → new_byte_array k ≡ true)
    → get_certs verify_depth chain true new_byte_array ≡ some (take verify_depth chain)
unfolding get_certs
get_certs-encoded verify_depth chain new_byte_array enc room =
    copy_certs-encoded (min verify_depth (length chain)) 0 chain new_byte_array (omega arith)
      (subst AreEncoded (sym (take-min-length verify_depth chain)) enc) room
    ∙ ap some (take-min-length verify_depth chain)
