-- ===== src/Credential/Setters.antt =====
-- What the setters of an SSL_CREDENTIAL do on every branch.
use netty_tcnative.Base.{
  ℕ, ◌+◌, ◌-◌, ◌≡◌, ◌⊎◌, inl, inr, refl, ap, ap₂, List, Bool, true, false, Option, some, arith,
  Bool-cases,
}
use netty_tcnative.Base.Jni.{
  Exception, Outcome, returned, thrown, exception, null_pointer, unsupported_operation,
}
use netty_tcnative.Callbacks.{openssl, boringssl}
use netty_tcnative.Credential.{
  Field, ocsp_response, certificate_properties, signed_cert_timestamp_list, trust_anchor_id,
  delegated_credential, Credential, CredentialAnswers, Result, with_field, is_empty, set_by_buffer,
  set_directly, set_bytes,
}

-- The ways in which a setter ends: the new state is `d` and everything made on the way is freed; or
-- nothing has changed, silently or with an exception.
pub record Sets (empty : Bool) (a : CredentialAnswers) (c d : Credential) (r : Result)
    : Type 0 where
  pub all_or_nothing :
      (r ≡ (returned tt, d))
      ⊎ ((r ≡ (returned tt, c)) × ((empty ≡ true) ⊎ (a.get_elements ≡ false)))
      ⊎ ((x : Exception) × (r ≡ (thrown x, c)))
  pub sets :
      empty ≡ false
      → a.get_elements ≡ true
      → a.new_buffer ≡ true
      → a.malloc ≡ true
      → a.set1 ≡ true
      → r ≡ (returned tt, d)

back : (n : ℕ) → n + 1 - 1 ≡ n
back n = omega arith

-- Counters that go up and down again.
pub unpinned : (c : Credential) → record c { pinned = c.pinned + 1 - 1 } ≡ c
unpinned c = ap (λ n. record c { pinned = n }) {x = c.pinned + 1 - 1} (back c.pinned)

unbuffered :
    (c : Credential) → record c { pinned = c.pinned + 1 - 1; buffers = c.buffers + 1 - 1 } ≡ c
unbuffered c = ap₂ (λ n m. record c { pinned = n; buffers = m }) (back c.pinned) (back c.buffers)

pub unallocated : (c : Credential) → record c { allocations = c.allocations + 1 - 1 } ≡ c
unallocated c =
    ap (λ n. record c { allocations = n }) {x = c.allocations + 1 - 1} (back c.allocations)

pub unallocated_unpinned :
    (c : Credential)
    → record c { allocations = c.allocations + 1 - 1; pinned = c.pinned + 1 - 1 } ≡ c
unallocated_unpinned c =
    ap₂ (λ n m. record c { allocations = n; pinned = m }) (back c.allocations) (back c.pinned)

-- The same state, with the same outcome.
pub same : (o : Outcome (Unit {0})) {c d : Credential} → c ≡ d → ◌≡◌ {A = Result} (o, c) (o, d)
same o e = ap (λ k. (o, k)) e

-- The ends of a setter.
pub done :
    (empty : Bool) (a : CredentialAnswers) (c d : Credential) (r : Result)
    → r ≡ (returned tt, d)
    → Sets empty a c d r
done empty a c d r e = record { all_or_nothing = inl e; sets = λ e1 e2 e3 e4 e5. e }

pub silent :
    (empty : Bool) (a : CredentialAnswers) (c d : Credential) (r : Result)
    → (empty ≡ true) ⊎ (a.get_elements ≡ false)
    → r ≡ (returned tt, c)
    → Sets empty a c d r
silent empty a c d r h e = record {
  all_or_nothing = inr (inl (e, h));
  sets = λ e1 e2 e3 e4 e5. absurd (ground arith);
}

pub raises :
    (empty : Bool) (a : CredentialAnswers) (c d : Credential) (r : Result) (x : Exception)
    → (empty ≡ true) ⊎ (a.new_buffer ≡ false) ⊎ (a.malloc ≡ false) ⊎ (a.set1 ≡ false)
    → r ≡ (thrown x, c)
    → Sets empty a c d r
raises empty a c d r x h e = record {
  all_or_nothing = inr (inr (x, e));
  sets = λ e1 e2 e3 e4 e5. absurd (ground arith);
}

set_by_buffer-Sets :
    (f : Field) (content : List ℕ) (a : CredentialAnswers) (c : Credential)
    → Sets (is_empty content) a c (with_field f content c) (set_by_buffer f content a c)
unfolding set_by_buffer
set_by_buffer-Sets f content a c =
    let d = with_field f content c in
    elim (Bool-cases (is_empty content)) [
      | inl h1 ↦ silent _ a c d _ (inl h1) (rw h1 refl)
      | inr h1 ↦ elim (Bool-cases a.get_elements) [
        | inr h2 ↦ silent _ a c d _ (inr h2) (simp (h1, h2))
        | inl h2 ↦ elim (Bool-cases a.new_buffer) [
          | inr h3 ↦
              raises _ a c d _ null_pointer (inr (inl h3))
                (simp (h1, h2, h3) (same (thrown null_pointer) (unpinned c)))
          | inl h3 ↦ elim (Bool-cases a.set1) [
            | inr h4 ↦
                raises _ a c d _ exception (inr (inr (inr h4)))
                  (simp (h1, h2, h3, h4) (same (thrown exception) (unbuffered c)))
            | inl h4 ↦ done _ a c d _ (simp (h1, h2, h3, h4) (same (returned tt) (unbuffered d)))
          ]
        ]
      ]
    ]

set_directly-Sets :
    (f : Field) (content : List ℕ) (a : CredentialAnswers) (c : Credential)
    → Sets (is_empty content) a c (with_field f content c) (set_directly f content a c)
unfolding set_directly
set_directly-Sets f content a c =
    let d = with_field f content c in
    elim (Bool-cases (is_empty content)) [
      | inl h1 ↦ silent _ a c d _ (inl h1) (rw h1 refl)
      | inr h1 ↦ elim (Bool-cases a.get_elements) [
        | inr h2 ↦ silent _ a c d _ (inr h2) (simp (h1, h2))
        | inl h2 ↦ elim (Bool-cases a.set1) [
          | inr h4 ↦
              raises _ a c d _ exception (inr (inr (inr h4)))
                (simp (h1, h2, h4) (same (thrown exception) (unpinned c)))
          | inl h4 ↦ done _ a c d _ (simp (h1, h2, h4) (same (returned tt) (unpinned d)))
        ]
      ]
    ]

-- On BoringSSL each setter of bytes, given a credential and an array, stores exactly the array in its
-- field and leaves every other field, or changes nothing; on every way it frees what it made and unpins
-- what it pinned. It changes nothing without an exception of its own only for an empty array or when the
-- JNI gives no elements, and it stores the array if that is not empty and nothing fails. A build against
-- OpenSSL always throws UnsupportedOperationException and changes nothing.
pub set_bytes-Sets :
    (f : Field) (content : List ℕ) (a : CredentialAnswers) (c : Credential)
    → Sets
        (is_empty content)
        a
        c
        (with_field f content c)
        (set_bytes boringssl f false (some content) a c)
      × ((null_cred : Bool) (array : Option (List ℕ))
          → set_bytes openssl f null_cred array a c ≡ (thrown unsupported_operation, c))
unfolding set_bytes
set_bytes-Sets ocsp_response content a c =
    (set_by_buffer-Sets ocsp_response content a c, λ n d. refl)
set_bytes-Sets certificate_properties content a c =
    (set_by_buffer-Sets certificate_properties content a c, λ n d. refl)
set_bytes-Sets signed_cert_timestamp_list content a c =
    (set_by_buffer-Sets signed_cert_timestamp_list content a c, λ n d. refl)
set_bytes-Sets trust_anchor_id content a c =
    (set_directly-Sets trust_anchor_id content a c, λ n d. refl)
set_bytes-Sets delegated_credential content a c =
    (set_by_buffer-Sets delegated_credential content a c, λ n d. refl)
