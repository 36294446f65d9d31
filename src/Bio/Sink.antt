-- ===== src/Bio/Sink.antt =====
-- `tcn_write_to_bytebuffer` while the ByteBuffer is the write sink.
use netty_tcnative.Base.{
  ℕ, ◌+◌, ◌-◌, ◌≤◌, ◌<◌, ◌≢◌, min, ◌≡◌, refl, sym, ap, ap₂, ◌∙◌, List, ◌++◌, some, length, take,
  drop, arith, Bool-cases, inl, inr, leb, le→leb, leb→le, not-leb→lt, ◌==◌, ==_iff, ◌||◌, false,
  length-take, take-append_le, take-append_add, take-all, drop-all, take-take, append-nil,
}
use netty_tcnative.Base.Int.{pos}
use netty_tcnative.Bio.{ByteBufferBio, store, drain_first, sink_write}
use netty_tcnative.Bio.Ring.{IsValid, contents, store-append, length-contents}
use netty_tcnative.Bio.Flush.{Flushed, flush_lem}

unchanged-Flushed :
    (b : ByteBufferBio) → IsValid b → b.non_application_buffer_length ≡ 0 → Flushed b 0 b
unchanged-Flushed b v e = record {
  valid = v;
  written = refl;
  queued = refl;
  buffer_moved = omega arith;
  buffer_left = omega arith;
  length_left = omega arith;
  sink_kept = refl;
  retry_kept = refl;
}

drain_first_lem :
    (b : ByteBufferBio)
    → IsValid b
    → let n : ℕ = min b.buffer_length b.non_application_buffer_length in
      (c : ByteBufferBio) × (drain_first b ≡ some (n, c)) × Flushed b n c
unfolding drain_first
drain_first_lem b v = elim (Bool-cases (b.non_application_buffer_length == 0)) [
  | inl z ↦
      let e : b.non_application_buffer_length ≡ 0 = (==_iff _ _).0 z in
      let n0 : min b.buffer_length b.non_application_buffer_length ≡ 0 = omega arith in
      (b, rw (z, n0) refl, rw n0 (unchanged-Flushed b v e))
  | inr more ↦ rw more (flush_lem b v)
]

-- What the ByteBuffer receives: its length of the queue followed by the input.
abbrev pub delivered : ByteBufferBio → List ℕ → ℕ → List ℕ
delivered b input inl_ = take b.buffer_length (contents b ++ take inl_ input)

delivered-split :
    (b : ByteBufferBio) (input : List ℕ) (inl_ : ℕ)
    → IsValid b
    → inl_ ≤ length input
    → let n : ℕ = min b.buffer_length b.non_application_buffer_length in
      take n (contents b) ++ take (min (b.buffer_length - n) inl_) input ≡ delivered b input inl_
delivered-split b input inl_ v given =
    elim (Bool-cases (leb b.buffer_length b.non_application_buffer_length)) [
      | inl h ↦ short (leb→le _ _ h)
      | inr h ↦ long (not-leb→lt _ _ h)
    ]
  where
    open b use {buffer_length as room, non_application_buffer_length as len}

    n : ℕ
    n = min room len

    short :
        room ≤ len
        → take n (contents b) ++ take (min (room - n) inl_) input ≡ delivered b input inl_
    short h =
        ap₂ ◌++◌ (ap (λ k. take k (contents b)) {x = n} {y = room} (omega arith))
          (ap (λ k. take k input) {x = min (room - n) inl_} {y = 0} (omega arith))
        ∙ append-nil (take room (contents b))
        ∙ sym (
            take-append_le room (contents b) (take inl_ input) (omega (arith, length-contents b v)))

    long :
        len < room
        → take n (contents b) ++ take (min (room - n) inl_) input ≡ delivered b input inl_
    long h =
        ap₂ ◌++◌ (take-all n (contents b) (omega (arith, length-contents b v))) (
          ap (λ k. take k input) {x = min (room - n) inl_}
            {y = min (room - length (contents b)) inl_} (omega (arith, length-contents b v))
          ∙ sym (take-take (room - length (contents b)) inl_ input))
        ∙ sym (
            take-append_add room (contents b) (take inl_ input)
              (omega (arith, length-contents b v)))

-- After a drain that gave `c`, the input goes behind the drained bytes.
sink_write-drained :
    (b : ByteBufferBio) (input : List ℕ) (inl_ n : ℕ) (c : ByteBufferBio)
    → b.buffer ≢ 0
    → b.buffer_length ≢ 0
    → inl_ ≤ length input
    → drain_first b ≡ some (n, c)
    → sink_write b input inl_
      ≡ some (
        pos (n + min c.buffer_length inl_),
        record c {
          memory = store c.memory c.buffer (take (min c.buffer_length inl_) input);
          buffer = c.buffer + min c.buffer_length inl_;
          buffer_length = c.buffer_length - min c.buffer_length inl_;
        },
      )
unfolding sink_write
sink_write-drained b input inl_ n c attached more given e =
    rw (open_sink, e, le→leb (0 + min c.buffer_length inl_) (length input) (omega arith)) refl
  where
    open_sink : (b.buffer == 0 || b.buffer_length == 0) ≡ false
    open_sink = ground arith

drop-min : (m n : ℕ) (xs : List ℕ) → length xs ≤ n → drop (min m n) xs ≡ drop m xs
drop-min m n xs h = elim (Bool-cases (leb m n)) [
  | inl k ↦ ap (λ j. drop j xs) {x = min m n} {y = m} (omega (arith, leb→le _ _ k))
  | inr k ↦
      drop-all (min m n) xs (omega (arith, not-leb→lt _ _ k))
      ∙ sym (drop-all m xs (omega (arith, not-leb→lt _ _ k)))
]

-- On a valid BIO that has a ByteBuffer with room as its sink, a write has no undefined behaviour.
-- The ByteBuffer receives, in order, as much of the queued bytes followed by the input as it has
-- room for; the queue keeps the rest of the queued bytes. The value returned is the number of bytes
-- that the ByteBuffer received, queued bytes included, which may exceed the number taken of the
-- input and even `inl`.
pub sink_write_lem :
    (b : ByteBufferBio) (input : List ℕ) (inl_ : ℕ)
    → IsValid b
    → b.buffer ≢ 0
    → b.buffer_length ≢ 0
    → inl_ ≤ length input
    → (c : ByteBufferBio) × (sink_write b input inl_
        ≡ some (pos (min b.buffer_length (b.non_application_buffer_length + inl_)), c))
      × (c.memory ≡ store b.memory b.buffer (delivered b input inl_))
      × (contents c ≡ drop b.buffer_length (contents b))
      × IsValid c
sink_write_lem b input inl_ v attached more given = (c, returns, received, rest, valid)
  where
    open b use {buffer_length as room, non_application_buffer_length as len}

    n : ℕ
    n = min room len

    drained_bio : ByteBufferBio
    drained_bio = (drain_first_lem b v).0

    f : Flushed b n drained_bio
    f = (drain_first_lem b v).2

    k : ℕ
    k = min drained_bio.buffer_length inl_

    c : ByteBufferBio
    c = record drained_bio {
      memory = store drained_bio.memory drained_bio.buffer (take k input);
      buffer = drained_bio.buffer + k;
      buffer_length = drained_bio.buffer_length - k;
    }

    returns : sink_write b input inl_ ≡ some (pos (min room (len + inl_)), c)
    returns =
        sink_write-drained b input inl_ n drained_bio attached more given (drain_first_lem b v).1
        ∙ ap (λ j. some (pos j, c)) (omega (arith, f.buffer_left))

    received : c.memory ≡ store b.memory b.buffer (delivered b input inl_)
    received =
        ap₂ (λ m a. store m a (take k input)) f.written
          (f.buffer_moved
            ∙ ap (λ j. b.buffer + j)
                (omega (arith, length-take n (contents b), length-contents b v)))
        ∙ store-append b.memory b.buffer (take n (contents b)) (take k input)
        ∙ ap (store b.memory b.buffer) (
            ap (λ j. take n (contents b) ++ take (min j inl_) input) f.buffer_left
            ∙ delivered-split b input inl_ v given)

    rest : contents c ≡ drop room (contents b)
    rest = f.queued ∙ drop-min room len (contents b) (omega (arith, length-contents b v))

    valid : IsValid c
    valid = record {
      sized = f.valid.sized;
      offset_in = f.valid.offset_in;
      length_in = f.valid.length_in;
      small = f.valid.small;
    }
