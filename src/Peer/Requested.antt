-- ===== src/Peer/Requested.antt =====
-- What a server that asks for a certificate gets when Java answers with `setKeyMaterialClientSide`.
use netty_tcnative.Base.{
  ℕ, ◌≡◌, refl, ap, List, [], ◌∷◌, ◌++◌, length, Bool, true, false, Option, none, some, ◌&&◌, arith,
}
use netty_tcnative.Base.Int.{ℤ, pos, negsuc}
use netty_tcnative.Base.Jni.{returned, thrown}
use netty_tcnative.Callbacks.{openssl}
use netty_tcnative.Chain.Result.{all_accepted}
use netty_tcnative.Material.Client.{
  ClientMaterial, ClientAnswers, ClientDone, IsOwned, HandsOver, set_key_material_client_side,
  set_key_material_client_side-HandsOver,
}
use netty_tcnative.Peer.{
  JavaState, ArrayAnswers, Arrays, Requester, answer, cert_requested, is_lost, given, key_types,
  principal_bytes, copy_stack, copy_all, copy_one, encode,
}

-- A callback whose call of `setKeyMaterialClientSide` may throw.
abbrev pub threw : ClientDone → Bool × ClientMaterial
threw (returned u, m) = (false, m)
threw (thrown e, m) = (true, m)

abbrev pub chooses : ClientAnswers → List ℕ → ℕ → Requester
chooses a chain k types issuers m =
    threw (set_key_material_client_side openssl false (some chain) (some k) a m)

-- What OpenSSL gets: a pair, or a failure and no pair.
pub Requested : Bool → ℕ → ℕ → ℤ → ClientMaterial → Type 0
Requested true x k o m = (o ≡ pos 1) × (m.cert_out ≡ some x) × (m.key_out ≡ some k) × IsOwned m
Requested false x k o m = (o ≡ negsuc 0) × (m.cert_out ≡ none) × (m.key_out ≡ none) × IsOwned m

answer-Requested :
    (taken : Bool) (x k : ℕ) (xs : List ℕ) (s : ClientMaterial) (r : ClientDone)
    → HandsOver taken x k xs s r
    → Requested taken x k (answer (threw r).0 (threw r).1.cert_out) (threw r).1
unfolding Requested HandsOver
answer-Requested true x k xs s (returned u, m) h = (ap (answer false) h.2, h.2, h.3, h.4)
answer-Requested true x k xs s (thrown e, m) h = ground arith
answer-Requested false x k xs s (returned u, m) h = ground arith
answer-Requested false x k xs s (thrown e, m) h = (refl, h.1, h.2, h.3)

-- The JVM can allocate every array.
abbrev pub Allocates : ArrayAnswers → Type 0
Allocates j = ((n : ℕ) → j.new_array n ≡ true) × ((b : List ℕ) → j.new_bytes b ≡ true)

key_types-kept :
    (j : ArrayAnswers) (types : List ℕ) (s : JavaState)
    → Allocates j
    → is_lost types (key_types j types s).0 ≡ false
unfolding key_types
key_types-kept j [] s h = refl
key_types-kept j (t ∷ ts) s h = simp (h.1 (t ∷ ts)) refl

copy_one-kept :
    (j : ArrayAnswers) (x : ℕ) (xs : List ℕ) (e : Option (List ℕ)) (s t : JavaState)
    (rest : List ℕ → Arrays × JavaState)
    → Allocates j
    → ((bytes : List ℕ) → is_lost (x ∷ xs) (rest bytes).0 ≡ false)
    → is_lost (x ∷ xs) (copy_one j e s t rest).0 ≡ false
unfolding copy_one
copy_one-kept j x xs none s t rest h g = simp (h.0 0) refl
copy_one-kept j x xs (some bytes) s t rest h g = simp (h.1 bytes) (g bytes)

copy_all-kept :
    (j : ArrayAnswers) (x : ℕ) (xs ys : List ℕ) (copied : List (List ℕ)) (s : JavaState)
    → Allocates j
    → is_lost (x ∷ xs) (copy_all openssl j ys copied s).0 ≡ false
unfolding copy_all encode
copy_all-kept j x xs [] copied s h = refl
copy_all-kept j x xs (y ∷ ys) copied s h =
    copy_one-kept j x xs (j.i2d y) s _ _ h
      (λ bytes. copy_all-kept j x xs ys (copied ++ (bytes ∷ [])) _ h)

principal_bytes-kept :
    (j : ArrayAnswers) (names : Option (List ℕ)) (s : JavaState)
    → Allocates j
    → is_lost (given names) (principal_bytes openssl j names s).0 ≡ false
unfolding principal_bytes copy_stack
principal_bytes-kept j none s h = refl
principal_bytes-kept j (some []) s h = refl
principal_bytes-kept j (some (x ∷ xs)) s h =
    simp (h.0 (length (x ∷ xs))) (copy_all-kept j x xs (x ∷ xs) [] _ h)

-- When Java answers a server's request with setKeyMaterialClientSide, for a chain with a leaf and a key,
-- the JVM can allocate, and the two pointers are NULL before: cert_requested gives OpenSSL 1 with the leaf and the key if the
-- library took every further certificate and both references, and -1 with neither of them otherwise, and
-- every reference to a certificate or a key has exactly one owner.
pub cert_requested-Requested :
    (j : ArrayAnswers) (types : List ℕ) (names : Option (List ℕ)) (a : ClientAnswers) (x k : ℕ)
    (xs : List ℕ) (m : ClientMaterial) (s : JavaState)
    → Allocates j
    → m.cert_out ≡ none
    → m.key_out ≡ none
    → IsOwned m
    → Requested
        (all_accepted a.add1 xs && (a.up_ref_cert && a.up_ref_key))
        x
        k
        (cert_requested true j types names (chooses a (x ∷ xs) k) m s).0
        (cert_requested true j types names (chooses a (x ∷ xs) k) m s).1
unfolding cert_requested
cert_requested-Requested j types names a x k xs m s l c e h =
    simp (key_types-kept j types s l, principal_bytes-kept j names (key_types j types s).1 l)
      (answer-Requested _ x k xs m
        (set_key_material_client_side openssl false (some (x ∷ xs)) (some k) a m)
        (set_key_material_client_side-HandsOver a x k xs m c e h))
