-- ===== src/Peer.antt =====
-- What Java is shown of the peer, and what it answers a server that asks for a certificate:
-- `keyTypes`, `principalBytes` and `cert_requested` of openssl-dynamic/src/main/c/sslcontext.c and
-- `getPeerCertChain` of ssl.c.
pub mod Copies
pub mod Requested
mod Tests
use netty_tcnative.Base.{
  ℕ, ◌+◌, ◌-◌, List, [], ◌∷◌, ◌++◌, Bool, true, false, Option, none, some, ◌||◌, if◌then◌else◌,
  length,
}
use netty_tcnative.Base.Int.{ℤ, pos, negsuc}
use netty_tcnative.Base.Jni.{Outcome, returned, thrown, null_pointer}
use netty_tcnative.Callbacks.{Library, openssl, boringssl}
use netty_tcnative.Material.Client.{ClientMaterial}

-- The local references of JNI and the buffers of i2d that are live.
pub record JavaState : Type 0 where
  pub local_refs : ℕ
  pub buffers : ℕ

-- i2d of OpenSSL (`none` is a failure) and the bytes of a CRYPTO_BUFFER; NewObjectArray by its length,
-- NewByteArray by what is copied into it.
pub record ArrayAnswers : Type 0 where
  pub i2d : ℕ → Option (List ℕ)
  pub buffer_bytes : ℕ → List ℕ
  pub new_array : ℕ → Bool
  pub new_bytes : List ℕ → Bool

-- A `byte[][]`; `none` is NULL, with the exception of the JVM pending where it could not allocate.
abbrev pub Arrays : Type 0
Arrays = Option (List (List ℕ))

pub encode : Library → ArrayAnswers → ℕ → Option (List ℕ)
encode openssl a x = a.i2d x
encode boringssl a x = some (a.buffer_bytes x)

-- A buffer of i2d, which OPENSSL_free frees. BoringSSL needs none.
abbrev pub buffer_made : Library → JavaState → JavaState
buffer_made openssl s = record s { buffers = s.buffers + 1 }
buffer_made boringssl s = s

abbrev pub buffer_freed : Library → JavaState → JavaState
buffer_freed openssl s = record s { buffers = s.buffers - 1 }
buffer_freed boringssl s = s

-- An array of no arrays, "in case of error".
abbrev pub empty_array : ArrayAnswers → JavaState → Arrays × JavaState
empty_array a s =
    if a.new_array 0 then (some [], record s { local_refs = s.local_refs + 1 }) else (none, s)

-- The reference to an element is deleted once it is in the array.
abbrev pub element_set : JavaState → JavaState
element_set s = record s { local_refs = s.local_refs + 1 - 1 }

-- One element, which is encoded already, and the rest of the loop.
pub copy_one :
    ArrayAnswers
    → Option (List ℕ)
    → JavaState
    → JavaState
    → (List ℕ → Arrays × JavaState)
    → Arrays × JavaState
copy_one a none s freed rest = empty_array a s
copy_one a (some bytes) s freed rest = if a.new_bytes bytes then rest bytes else (none, freed)

-- The loop of `principalBytes` and `getPeerCertChain`. `copied` are the elements of the array.
pub copy_all : Library → ArrayAnswers → List ℕ → List (List ℕ) → JavaState → Arrays × JavaState
copy_all library a [] copied s = (some copied, s)
copy_all library a (x ∷ xs) copied s =
    let freed = buffer_freed library (buffer_made library s) in
    copy_one a (encode library a x) s freed
      (λ bytes. copy_all library a xs (copied ++ (bytes ∷ [])) (element_set freed))

-- The array for the elements of a stack, NULL for an empty one.
pub copy_stack : Library → ArrayAnswers → List ℕ → JavaState → Arrays × JavaState
copy_stack library a [] s = (none, s)
copy_stack library a (x ∷ xs) s =
    let rest = copy_all library a (x ∷ xs) [] (record s { local_refs = s.local_refs + 1 }) in
    if a.new_array (length (x ∷ xs)) then rest else (none, s)

-- `principalBytes`: the names (`none` is NULL).
pub principal_bytes : Library → ArrayAnswers → Option (List ℕ) → JavaState → Arrays × JavaState
principal_bytes library a none s = (none, s)
principal_bytes library a (some names) s = copy_stack library a names s

-- `keyTypes`: the types of certificates that the peer allows.
pub key_types : ArrayAnswers → List ℕ → JavaState → Option (List ℕ) × JavaState
key_types a [] s = (none, s)
key_types a (t ∷ ts) s =
    if a.new_bytes (t ∷ ts)
    then (some (t ∷ ts), record s { local_refs = s.local_refs + 1 })
    else (none, s)

-- The certificates behind the offset: the stack of a BoringSSL server begins with the leaf.
abbrev pub behind_offset : Library → Bool → List ℕ → List ℕ
behind_offset boringssl true (leaf ∷ xs) = xs
behind_offset boringssl true [] = []
behind_offset boringssl false xs = xs
behind_offset openssl server xs = xs

-- `getPeerCertChain`: the SSL (`true` is NULL), whether its context has SSL_MODE_SERVER, and the stack,
-- which is empty when it is NULL.
pub get_peer_cert_chain :
    Library → Bool → Bool → ArrayAnswers → List ℕ → JavaState → Outcome Arrays × JavaState
get_peer_cert_chain library true server a chain s = (thrown null_pointer, s)
get_peer_cert_chain library false server a chain s =
    let r = copy_stack library a (behind_offset library server chain) s in (returned r.0, r.1)

-- The Java callback gets the types, the issuers and the two pointers, which begin as NULL, and leaves
-- whether it threw and the key material.
abbrev pub Requester : Type 0
Requester = Option (List ℕ) → Arrays → ClientMaterial → Bool × ClientMaterial

abbrev pub deleted {ℓ} : {A : Type ℓ} → Option A → JavaState → JavaState
deleted none s = s
deleted (some x) s = record s { local_refs = s.local_refs - 1 }

-- Whether an allocation for these elements has failed, so that its exception is pending.
abbrev pub is_lost {ℓ} : {A : Type ℓ} → List ℕ → Option A → Bool
is_lost [] o = false
is_lost (x ∷ xs) none = true
is_lost (x ∷ xs) (some y) = false

abbrev pub given : Option (List ℕ) → List ℕ
given none = []
given (some xs) = xs

abbrev pub answer : Bool → Option ℕ → ℤ
answer true cert = negsuc 0
answer false none = pos 0
answer false (some x) = pos 1

-- `cert_requested`. `ready` is whether the SSL has its context and the thread a Java environment.
pub cert_requested :
    Bool
    → ArrayAnswers
    → List ℕ
    → Option (List ℕ)
    → Requester
    → ClientMaterial
    → JavaState
    → ℤ × ClientMaterial × JavaState
cert_requested false a types names java m s = (negsuc 0, m, s)
cert_requested true a types names java m s =
    let t = key_types a types s in
    let p = principal_bytes openssl a names t.1 in
    let called = java t.0 p.0 m in
    (
      answer (is_lost types t.0 || is_lost (given names) p.0 || called.0) called.1.cert_out,
      called.1,
      deleted p.0 (deleted t.0 p.1),
    )
