-- ===== src/Compression/Exact.antt =====
-- What the functions of BoringSSL get from a compression algorithm of Java.
use netty_tcnative.Base.{
  ℕ, ◌+◌, ◌-◌, ◌≡◌, ◌⊎◌, inl, inr, refl, sym, ap, ◌∙◌, List, [], ◌++◌, true, Option, none, some,
  length, take, drop, write_at, arith, append-nil, drop-all, take-all, Bool-cases, ==_iff, ◌==◌,
  Option-cases,
}
use netty_tcnative.Compression.{
  JavaArray, threw, null_array, array, Transfer, TransferAnswers, called, call_java,
  copy_compressed, reserve_and_copy, compress, fill_buffer, alloc_and_copy, decompress,
}

-- The memory that the library gives has the size asked for.
unfoldable pub AreSized : TransferAnswers → Type 0
AreSized a =
    ((n : ℕ) (m : List ℕ) → a.reserve n ≡ some m → length m ≡ n)
    × ((n : ℕ) (m : List ℕ) → a.alloc n ≡ some m → length m ≡ n)

pub write_at-whole : (m bytes : List ℕ) → length m ≡ length bytes → write_at m 0 bytes ≡ some bytes
write_at-whole m bytes e =
    let h : write_at m 0 bytes ≡ some (bytes ++ drop (0 + length bytes) m) = ground arith in
    let d : drop (0 + length bytes) m ≡ [] = drop-all (0 + length bytes) m (omega arith) in
    h ∙ ap (λ k. some (bytes ++ k)) d ∙ ap some (append-nil bytes)

-- A call of Java that gave bytes, and one that did not.
Answered : Option ℕ → Option (List ℕ → JavaArray) → List ℕ → List ℕ → Type 0
Answered object method input bytes =
    (v : ℕ) × (m : List ℕ → JavaArray) × (object ≡ some v)
    × (method ≡ some m)
    × (m input ≡ array bytes)

record Untouched (t t' : Transfer) : Type 0 where
  pub same_written : t'.written ≡ t.written
  pub same_buffer : t'.buffer ≡ t.buffer
  pub same_pinned : t'.pinned ≡ t.pinned

called-array :
    (j : JavaArray) (t : Transfer) (bytes : List ℕ) → (called j t).0 ≡ some bytes → j ≡ array bytes
unfolding called
called-array threw t bytes e = cc
called-array null_array t bytes e = cc
called-array (array b) t bytes e = cc

called-Untouched : (j : JavaArray) (t : Transfer) → Untouched t (called j t).1
unfolding called
called-Untouched threw t = ground arith
called-Untouched null_array t = ground arith
called-Untouched (array b) t = ground arith

call_java-Untouched :
    (object : Option ℕ) (method : Option (List ℕ → JavaArray)) (a : TransferAnswers)
    (input : List ℕ) (t : Transfer)
    → Untouched t (call_java object method a input t).1
unfolding call_java
call_java-Untouched none method a input t = ground arith
call_java-Untouched (some v) none a input t = ground arith
call_java-Untouched (some v) (some m) a input t =
    let h = called-Untouched (m input) (record t { local_refs = t.local_refs + 1 - 1 }) in
    ground arith

call_java-Answered :
    (object : Option ℕ) (method : Option (List ℕ → JavaArray)) (a : TransferAnswers)
    (input : List ℕ) (t : Transfer) (bytes : List ℕ)
    → (call_java object method a input t).0 ≡ some bytes
    → Answered object method input bytes
unfolding call_java Answered
call_java-Answered none method a input t bytes e = cc
call_java-Answered (some v) none a input t bytes e = cc
call_java-Answered (some v) (some m) a input t bytes e = elim (Bool-cases a.has_env) [
  | inr h ↦ absurd (ground arith)
  | inl h ↦ elim (Bool-cases a.new_byte_array) [
    | inr k ↦ absurd (ground arith)
    | inl k ↦ (
      v,
      m,
      refl,
      refl,
      called-array (m input) (record t { local_refs = t.local_refs + 1 - 1 }) bytes
          (simp (h, k) at e),
    )
  ]
]

-- The end of `compress` for the given bytes.
abbrev Appends : List ℕ → Transfer → Option (ℕ × Transfer) → Type 0
Appends bytes t o =
    (r : ℕ) × (t' : Transfer) × (o ≡ some (r, t'))
    × (t'.pinned ≡ t.pinned)
    × (((r ≡ 1) × (t'.written ≡ t.written ++ bytes)) ⊎ ((r ≡ 0) × (t'.written ≡ t.written)))

copy_compressed-Appends :
    (a : TransferAnswers) (bytes : List ℕ) (o : Option (List ℕ)) (t : Transfer)
    → ((m : List ℕ) → o ≡ some m → length m ≡ length bytes)
    → Appends bytes t (copy_compressed a bytes o t)
unfolding copy_compressed
copy_compressed-Appends a bytes none t h = (0, t, refl, refl, inr (refl, refl))
copy_compressed-Appends a bytes (some m) t h =
    let w = write_at-whole m bytes (h m refl) in
    elim (Bool-cases a.get_elements) [
      | inr k ↦ (0, record t { pending = true }, rw k refl, refl, inr (refl, refl))
      | inl k ↦ elim (Bool-cases a.did_write) [
        | inr l ↦ (
          0,
          record t { pinned = t.pinned + 1 - 1 },
          simp (k, l, w),
          omega arith,
          inr (refl, refl),
        )
        | inl l ↦ (
          1,
          record t { written = t.written ++ take (length bytes) bytes; pinned = t.pinned + 1 - 1 },
          simp (k, l, w),
          omega arith,
          inl (refl, ap (λ b. t.written ++ b) (take-all (length bytes) bytes (omega arith))),
        )
      ]
    ]

-- What a call of `compress` leaves, and what it means that it succeeds.
pub Compresses :
    Option ℕ → Option (List ℕ → JavaArray) → List ℕ → Transfer → Option (ℕ × Transfer) → Type 0
Compresses object method input t o =
    (r : ℕ) × (t' : Transfer) × (o ≡ some (r, t'))
    × (t'.pinned ≡ t.pinned)
    × (((r ≡ 1)
          × (bytes : List ℕ) × Answered object method input bytes
          × (t'.written ≡ t.written ++ bytes))
        ⊎ ((r ≡ 0) × (t'.written ≡ t.written)))

reserve_and_copy-Compresses :
    (object : Option ℕ) (method : Option (List ℕ → JavaArray)) (a : TransferAnswers)
    (input : List ℕ) (t : Transfer) (r : Option (List ℕ) × Transfer)
    → AreSized a
    → Untouched t r.1
    → ((bytes : List ℕ) → r.0 ≡ some bytes → Answered object method input bytes)
    → Compresses object method input t (reserve_and_copy a r)
unfolding reserve_and_copy AreSized Compresses
reserve_and_copy-Compresses object method a input t (none, u) s h k =
    (0, u, refl, h.same_pinned, inr (refl, h.same_written))
reserve_and_copy-Compresses object method a input t (some bytes, u) s h k =
    let c =
      copy_compressed-Appends a bytes (a.reserve (length bytes)) u
        (λ m e. s.0 (length bytes) m e) in
    (
      c.0,
      c.1,
      c.2,
      c.3 ∙ h.same_pinned,
      elim c.4 [
        | inl d ↦ inl (d.0, bytes, k bytes refl, d.1 ∙ ap (λ w. w ++ bytes) h.same_written)
        | inr d ↦ inr (d.0, d.1 ∙ h.same_written)
      ],
    )

compress-Compresses :
    (object : Option ℕ) (method : Option (List ℕ → JavaArray)) (a : TransferAnswers)
    (input : List ℕ) (t : Transfer)
    → AreSized a
    → Compresses object method input t (compress object method a input t)
unfolding compress
compress-Compresses object method a input t s =
    reserve_and_copy-Compresses object method a input t (call_java object method a input t) s
      (call_java-Untouched object method a input t) (call_java-Answered object method a input t)

-- What a call of `decompress` leaves, and what it means that it succeeds.
pub Decompresses :
    Option ℕ → Option (List ℕ → JavaArray) → ℕ → List ℕ → Transfer → Option (ℕ × Transfer) → Type 0
Decompresses object method uncompressed_len input t o =
    (r : ℕ) × (t' : Transfer) × (o ≡ some (r, t'))
    × (t'.pinned ≡ t.pinned)
    × (((r ≡ 1)
          × (bytes : List ℕ) × Answered object method input bytes
          × (length bytes ≡ uncompressed_len)
          × (t'.buffer ≡ some bytes))
        ⊎ (r ≡ 0))

alloc_and_copy-Decompresses :
    (object : Option ℕ) (method : Option (List ℕ → JavaArray)) (a : TransferAnswers) (len : ℕ)
    (input : List ℕ) (t : Transfer) (r : Option (List ℕ) × Transfer)
    → AreSized a
    → Untouched t r.1
    → ((bytes : List ℕ) → r.0 ≡ some bytes → Answered object method input bytes)
    → Decompresses object method len input t (alloc_and_copy a len r)
unfolding alloc_and_copy fill_buffer AreSized Decompresses
alloc_and_copy-Decompresses object method a len input t (none, u) s h k =
    (0, u, refl, h.same_pinned, inr refl)
alloc_and_copy-Decompresses object method a len input t (some bytes, u) s h k =
    elim (Bool-cases (len == length bytes)) [
      | inr e ↦ (0, u, rw e refl, h.same_pinned, inr refl)
      | inl e ↦ elim (Bool-cases a.get_elements) [
        | inr g ↦ (0, record u { pending = true }, simp (e, g), h.same_pinned, inr refl)
        | inl g ↦ elim (Option-cases (a.alloc len)) [
          | inl n ↦ (
            0,
            record u { buffer = none; pinned = u.pinned + 1 - 1 },
            simp (e, g, n),
            omega (arith, h.same_pinned),
            inr refl,
          )
          | inr m ↦
              let eq : len ≡ length bytes = (==_iff len (length bytes)).0 e in
              let w = write_at-whole m.0 bytes (s.1 len m.0 m.1 ∙ eq) in
              (
                1,
                record u { buffer = some bytes; pinned = u.pinned + 1 - 1 },
                simp (e, g, m.1, w),
                omega (arith, h.same_pinned),
                inl (refl, bytes, k bytes refl, sym eq, refl),
              )
        ]
      ]
    ]

-- The method of `decompress` with the length that it is given.
abbrev pub method_for : ℕ → Option (ℕ → List ℕ → JavaArray) → Option (List ℕ → JavaArray)
method_for len none = none
method_for len (some m) = some (m len)

decompress-Decompresses :
    (object : Option ℕ) (method : Option (ℕ → List ℕ → JavaArray)) (a : TransferAnswers)
    (uncompressed_len : ℕ) (input : List ℕ) (t : Transfer)
    → AreSized a
    → Decompresses object
        (method_for uncompressed_len method)
        uncompressed_len
        input
        t
        (decompress object method a uncompressed_len input t)
unfolding decompress Decompresses
decompress-Decompresses object none a len input t s = (0, t, refl, refl, inr refl)
decompress-Decompresses object (some m) a len input t s =
    alloc_and_copy-Decompresses object (some (m len)) a len input t
      (call_java object (some (m len)) a input t) s
      (call_java-Untouched object (some (m len)) a input t)
      (call_java-Answered object (some (m len)) a input t)

-- When the library gives memory of the size asked for, `compress` and `decompress` stay inside of it and
-- unpin every array. `compress` returns 1 only if the algorithm is there and its method gave an array
-- for the input, and then has appended exactly its bytes; otherwise it returns 0 and has written
-- nothing. `decompress` returns 1 only if the algorithm is there and its method gave an array of exactly
-- the expected length for the input, and then the buffer has exactly its bytes; otherwise it returns 0.
pub compress-decompress_exact :
    (object : Option ℕ) (pack : Option (List ℕ → JavaArray))
    (unpack : Option (ℕ → List ℕ → JavaArray)) (a : TransferAnswers) (uncompressed_len : ℕ)
    (input : List ℕ) (t : Transfer)
    → AreSized a
    → Compresses object pack input t (compress object pack a input t)
      × Decompresses object
          (method_for uncompressed_len unpack)
          uncompressed_len
          input
          t
          (decompress object unpack a uncompressed_len input t)
compress-decompress_exact object pack unpack a uncompressed_len input t s = (
  compress-Compresses object pack a input t s,
  decompress-Decompresses object unpack a uncompressed_len input t s,
)
