-- ===== src/Credential/Prefs.antt =====
-- Signature algorithms and certificate chains of an SSL_CREDENTIAL.
use netty_tcnative.Base.{
  ℕ, ◌+◌, ◌*◌, ◌%◌, ◌^◌, ◌<◌, ◌≡◌, ◌⊎◌, inl, inr, refl, List, [], map, true, false, some, arith,
  Bool-cases,
}
use netty_tcnative.Base.Int.{ℤ, pos, negsuc}
use netty_tcnative.Base.Jni.{Exception, returned, thrown, exception, null_pointer}
use netty_tcnative.Callbacks.{boringssl}
use netty_tcnative.Credential.{
  Credential, CredentialAnswers, is_empty, uint16, set_prefs, set_signing_algorithm_prefs,
  set_chain, set_cert_chain,
}
use netty_tcnative.Credential.Setters.{
  Sets, same, done, silent, raises, unallocated, unallocated_unpinned,
}

set_prefs-Sets :
    (prefs : List ℤ) (a : CredentialAnswers) (c : Credential)
    → Sets
        (is_empty prefs)
        a
        c
        (record c { signing_prefs = map uint16 prefs })
        (set_prefs prefs a c)
unfolding set_prefs
set_prefs-Sets prefs a c =
    let d = record c { signing_prefs = map uint16 prefs } in
    elim (Bool-cases (is_empty prefs)) [
      | inl h1 ↦ silent _ a c d _ (inl h1) (rw h1 refl)
      | inr h1 ↦ elim (Bool-cases a.malloc) [
        | inr h2 ↦ raises _ a c d _ null_pointer (inr (inr (inl h2))) (simp (h1, h2))
        | inl h2 ↦ elim (Bool-cases a.get_elements) [
          | inr h3 ↦
              silent _ a c d _ (inr h3) (simp (h1, h2, h3) (same (returned tt) (unallocated c)))
          | inl h3 ↦ elim (Bool-cases a.set1) [
            | inr h4 ↦
                raises _ a c d _ exception (inr (inr (inr h4)))
                  (simp (h1, h2, h3, h4) (same (thrown exception) (unallocated_unpinned c)))
            | inl h4 ↦
                done _ a c d _ (simp (h1, h2, h3, h4) (same (returned tt) (unallocated_unpinned d)))
          ]
        ]
      ]
    ]

-- Two values of Java that differ by a multiple of 2 ^ 16.
uint16-add : (n k : ℕ) → uint16 (pos (n + k * 2 ^ 16)) ≡ uint16 (pos n)
uint16-add n k = omega arith

-- On BoringSSL setSigningAlgorithmPrefs, given a credential and an array, stores the values of the array
-- in their order, each cut to 16 bits, or changes nothing; on every way it frees what it made. A value
-- from 0 to 65535 is stored as it is, every stored value is below 2 ^ 16, and a value out of that range
-- is stored as the one that it is equal to modulo 2 ^ 16, without an error.
pub set_signing_algorithm_prefs-Sets :
    (prefs : List ℤ) (a : CredentialAnswers) (c : Credential)
    → Sets
        (is_empty prefs)
        a
        c
        (record c { signing_prefs = map uint16 prefs })
        (set_signing_algorithm_prefs boringssl false (some prefs) a c)
      × ((x : ℤ) → uint16 x < 2 ^ 16)
      × ((n : ℕ) → n < 2 ^ 16 → uint16 (pos n) ≡ n)
      × ((n k : ℕ) → uint16 (pos (n + k * 2 ^ 16)) ≡ uint16 (pos n))
      × ((n : ℕ) → (uint16 (negsuc n) + n + 1) % 2 ^ 16 ≡ 0)
unfolding set_signing_algorithm_prefs
set_signing_algorithm_prefs-Sets prefs a c = (
  set_prefs-Sets prefs a c,
  λ x. elim x as (λ x. uint16 x < 2 ^ 16) [ pos n ↦ omega arith | negsuc n ↦ omega arith ],
  λ n h. omega arith,
  uint16-add,
  λ n. omega arith,
)

-- On BoringSSL setCertChain, given a credential and a stack, throws for an empty stack, stores exactly
-- the buffers of the stack in their order, or throws and changes nothing; on every way it frees its
-- array. It stores them if there are any and nothing fails.
pub set_cert_chain-all :
    (stack : List ℕ) (a : CredentialAnswers) (c : Credential)
    → ((set_cert_chain boringssl false (some stack) a c
          ≡ (returned tt, record c { cert_chain = stack }))
        ⊎ ((x : Exception) × (set_cert_chain boringssl false (some stack) a c ≡ (thrown x, c))))
      × (set_cert_chain boringssl false (some []) a c ≡ (thrown exception, c))
      × (is_empty stack ≡ false
          → a.malloc ≡ true
          → a.set1 ≡ true
          → set_cert_chain boringssl false (some stack) a c
            ≡ (returned tt, record c { cert_chain = stack }))
unfolding set_cert_chain set_chain
set_cert_chain-all stack a c =
    let d = record c { cert_chain = stack } in
    (
      elim (Bool-cases (is_empty stack)) [
        | inl h1 ↦ inr (exception, rw h1 refl)
        | inr h1 ↦ elim (Bool-cases a.malloc) [
          | inr h2 ↦ inr (null_pointer, simp (h1, h2))
          | inl h2 ↦ elim (Bool-cases a.set1) [
            | inr h3 ↦ inr (exception, simp (h1, h2, h3) (same (thrown exception) (unallocated c)))
            | inl h3 ↦ inl (simp (h1, h2, h3) (same (returned tt) (unallocated d)))
          ]
        ]
      ],
      refl,
      λ h1 h2 h3. simp (h1, h2, h3) (same (returned tt) (unallocated d)),
    )
