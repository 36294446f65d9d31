-- ===== src/Material/Client.antt =====
-- Key material that Java chooses when the server asks for it: `setKeyMaterialClientSide` of
-- openssl-dynamic/src/main/c/ssl.c. `certOut` and `keyOut` belong to `cert_requested` of sslcontext.c,
-- which hands them to OpenSSL with their references.
use netty_tcnative.Base.{
  ℕ, ◌+◌, ◌-◌, ◌≡◌, refl, ap, sym, ◌∙◌, List, [], ◌∷◌, ◌++◌, Bool, true, false, Option, none, some,
  not, if◌then◌else◌, length, append_assoc, append-nil, length-append, arith, Bool-cases, inl, inr,
  ◌&&◌,
}
use netty_tcnative.Base.Jni.{Outcome, returned, thrown, exception, null_pointer}
use netty_tcnative.Callbacks.{Library, openssl, boringssl}
use netty_tcnative.Chain.Result.{all_accepted}

-- The chain of the connection, what `certOut` and `keyOut` hold, and the references to certificates and
-- keys that the connection and the two pointers have.
pub record ClientMaterial : Type 0 where
  pub chain : List ℕ
  pub cert_out : Option ℕ
  pub key_out : Option ℕ
  pub cert_refs : ℕ
  pub key_refs : ℕ

-- tcn_SSL_add1_chain_cert, tcn_X509_up_ref, tcn_EVP_PKEY_up_ref.
pub record ClientAnswers : Type 0 where
  pub add1 : ℕ → Bool
  pub up_ref_cert : Bool
  pub up_ref_key : Bool

abbrev pub ClientDone : Type 0
ClientDone = Outcome (Unit {0}) × ClientMaterial

-- The references for `certOut` and `keyOut`.
pub hand_over : ClientAnswers → ℕ → ℕ → ClientMaterial → ClientDone
hand_over a x k s =
    if not a.up_ref_cert
    then (thrown exception, s)
    else if not a.up_ref_key
    then (thrown exception, record s { cert_refs = s.cert_refs + 1 - 1 })
    else (
      returned tt,
      record s {
        cert_out = some x;
        key_out = some k;
        cert_refs = s.cert_refs + 1;
        key_refs = s.key_refs + 1;
      },
    )

-- The loop over the certificates after the first, and what follows it.
pub add_then_hand_over : ClientAnswers → ℕ → ℕ → List ℕ → ClientMaterial → ClientDone
add_then_hand_over a x k [] s = hand_over a x k s
add_then_hand_over a x k (y ∷ ys) s =
    let rest =
      add_then_hand_over a x k ys
        (record s { chain = s.chain ++ (y ∷ []); cert_refs = s.cert_refs + 1 }) in
    if a.add1 y then rest else (thrown exception, s)

-- `setKeyMaterialClientSide`: the SSL (`true` is NULL), the chain and the key (`none` is NULL).
pub set_key_material_client_side :
    Library → Bool → Option (List ℕ) → Option ℕ → ClientAnswers → ClientMaterial → ClientDone
set_key_material_client_side boringssl null chain key a s = (thrown exception, s)
set_key_material_client_side openssl true chain key a s = (thrown null_pointer, s)
set_key_material_client_side openssl false none key a s = (returned tt, s)
set_key_material_client_side openssl false (some chain) none a s = (returned tt, s)
set_key_material_client_side openssl false (some []) (some k) a s = (returned tt, s)
set_key_material_client_side openssl false (some (x ∷ xs)) (some k) a s =
    add_then_hand_over a x k xs s

abbrev held : Option ℕ → ℕ
held none = 0
held (some x) = 1

-- Every reference has an owner: the chain or one of the two pointers.
abbrev pub IsOwned : ClientMaterial → Type 0
IsOwned s = (s.cert_refs ≡ length s.chain + held s.cert_out) × (s.key_refs ≡ held s.key_out)

-- What the call leaves, by whether the library takes everything.
unfoldable pub HandsOver : Bool → ℕ → ℕ → List ℕ → ClientMaterial → ClientDone → Type 0
HandsOver true x k xs s r =
    (r.0 ≡ returned tt)
    × (r.1.chain ≡ s.chain ++ xs)
    × (r.1.cert_out ≡ some x)
    × (r.1.key_out ≡ some k)
    × IsOwned r.1
HandsOver false x k xs s r =
    (r.0 ≡ thrown exception) × (r.1.cert_out ≡ none) × (r.1.key_out ≡ none) × IsOwned r.1

certs-IsOwned : (s : ClientMaterial) → s.cert_out ≡ none → IsOwned s → s.cert_refs ≡ length s.chain
certs-IsOwned s c h = h.0 ∙ ap (λ o. length s.chain + held o) c ∙ omega arith

keys-IsOwned : (s : ClientMaterial) → s.key_out ≡ none → IsOwned s → s.key_refs ≡ 0
keys-IsOwned s e h = h.1 ∙ ap held e

hand_over-HandsOver :
    (a : ClientAnswers) (x k : ℕ) (s : ClientMaterial)
    → s.cert_out ≡ none
    → s.key_out ≡ none
    → IsOwned s
    → HandsOver (a.up_ref_cert && a.up_ref_key) x k [] s (hand_over a x k s)
unfolding hand_over HandsOver
hand_over-HandsOver a x k s c e h = elim (Bool-cases a.up_ref_cert) [
  | inr p ↦ simp p (refl, c, e, h)
  | inl p ↦ elim (Bool-cases a.up_ref_key) [
    | inr q ↦ simp (p, q) (refl, c, e, (omega arith, h.1))
    | inl q ↦
        simp (p, q)
          (
            refl,
            sym (append-nil s.chain),
            refl,
            refl,
            (ap (λ n. n + 1) (certs-IsOwned s c h), ap (λ n. n + 1) (keys-IsOwned s e h)),
          )
  ]
]

abbrev added : ℕ → ClientMaterial → ClientMaterial
added y s = record s { chain = s.chain ++ (y ∷ []); cert_refs = s.cert_refs + 1 }

added-IsOwned : (y : ℕ) (s : ClientMaterial) → IsOwned s → IsOwned (added y s)
added-IsOwned y s h =
    let grown : length (s.chain ++ (y ∷ [])) ≡ length s.chain + 1 =
      length-append s.chain (y ∷ []) in
    (omega arith, h.1)

moved :
    (b : Bool) (x k y : ℕ) (ys : List ℕ) (s : ClientMaterial) (r : ClientDone)
    → HandsOver b x k ys (added y s) r
    → HandsOver b x k (y ∷ ys) s r
unfolding HandsOver
moved true x k y ys s r h = (h.0, h.1 ∙ append_assoc s.chain (y ∷ []) ys, h.2, h.3, h.4)
moved false x k y ys s r h = h

add_then_hand_over-HandsOver :
    (a : ClientAnswers) (x k : ℕ) (xs : List ℕ) (s : ClientMaterial)
    → s.cert_out ≡ none
    → s.key_out ≡ none
    → IsOwned s
    → HandsOver
        (all_accepted a.add1 xs && (a.up_ref_cert && a.up_ref_key))
        x
        k
        xs
        s
        (add_then_hand_over a x k xs s)
unfolding add_then_hand_over HandsOver all_accepted
add_then_hand_over-HandsOver a x k [] s c e h = hand_over-HandsOver a x k s c e h
add_then_hand_over-HandsOver a x k (y ∷ ys) s c e h = elim (Bool-cases (a.add1 y)) [
  | inr p ↦ simp p (refl, c, e, h)
  | inl p ↦ simp p (
      moved (all_accepted a.add1 ys && (a.up_ref_cert && a.up_ref_key)) x k y ys s
        (add_then_hand_over a x k ys (added y s))
        (add_then_hand_over-HandsOver a x k ys (added y s) c e (added-IsOwned y s h)))
]

-- setKeyMaterialClientSide of OpenSSL, given a chain with a leaf and a key while its two pointers are
-- NULL and every reference has an owner: if the library takes every further certificate and both
-- references, the call returns, has added exactly the further certificates to the chain, and the pointers
-- hold the leaf and the key; otherwise it throws and both pointers stay NULL. Either way every reference
-- to a certificate or a key has exactly one owner.
pub set_key_material_client_side-HandsOver :
    (a : ClientAnswers) (x k : ℕ) (xs : List ℕ) (s : ClientMaterial)
    → s.cert_out ≡ none
    → s.key_out ≡ none
    → IsOwned s
    → HandsOver
        (all_accepted a.add1 xs && (a.up_ref_cert && a.up_ref_key))
        x
        k
        xs
        s
        (set_key_material_client_side openssl false (some (x ∷ xs)) (some k) a s)
unfolding set_key_material_client_side
set_key_material_client_side-HandsOver a x k xs s c e h =
    add_then_hand_over-HandsOver a x k xs s c e h
