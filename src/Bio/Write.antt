-- ===== src/Bio/Write.antt =====
-- `tcn_write_to_bytebuffer` while the ByteBuffer is not the write sink: bytes are queued.
use netty_tcnative.Base.{
  ℕ, ◌+◌, ◌-◌, ◌≤◌, ◌<◌, min, ◌≡◌, refl, sym, ap, ◌∙◌, List, ◌++◌, some, length, take, drop, arith,
  Bool-cases, inl, inr, leb, leb→le, not-leb→lt, length-take, length-drop, length-append,
}
use netty_tcnative.Base.Int.{pos}
use netty_tcnative.Bio.{ByteBufferBio, queue_write}
use netty_tcnative.Bio.Splice.{contents-splice, contents-wrap, take-split}
use netty_tcnative.Bio.Ring.{IsValid, contents, unrolled-straight}

-- What queueing `n` bytes of the input leaves.
pub record Queued (b : ByteBufferBio) (input : List ℕ) (n : ℕ) (c : ByteBufferBio) : Type 0 where
  pub valid : IsValid c
  pub queued : contents c ≡ contents b ++ take n input
  pub memory_kept : c.memory ≡ b.memory
  pub buffer_kept : c.buffer ≡ b.buffer
  pub left_kept : c.buffer_length ≡ b.buffer_length
  pub offset_kept : c.non_application_buffer_offset ≡ b.non_application_buffer_offset
  pub length_grown : c.non_application_buffer_length ≡ b.non_application_buffer_length + n

module _ (b : ByteBufferBio) (v : IsValid b) (input : List ℕ) (inl_ n : ℕ)
    (fits : b.non_application_buffer_offset + b.non_application_buffer_length
      ≤ b.non_application_buffer_size)
    (room : b.non_application_buffer_length < b.non_application_buffer_size)
    (given : inl_ ≤ length input)
    (amount : n ≡ min (b.non_application_buffer_size - b.non_application_buffer_length) inl_) where
  open b use {
    non_application_buffer as queue, non_application_buffer_size as size,
    non_application_buffer_offset as off, non_application_buffer_length as len,
  }

  abbrev with_queue : List ℕ → ByteBufferBio
  with_queue q = record b { non_application_buffer = q; non_application_buffer_length = len + n }

  abbrev straight_queue : List ℕ
  straight_queue =
      take (off + len) queue ++ (take n input ++ drop (off + len + length (take n input)) queue)

  abbrev first_part : List ℕ
  first_part = take (size - (off + len)) input

  abbrev second_part : List ℕ
  second_part = take (n - (size - (off + len))) (drop (size - (off + len)) input)

  abbrev once_queue : List ℕ
  once_queue = take (off + len) queue ++ (first_part ++ drop (off + len + length first_part) queue)

  abbrev twice_queue : List ℕ
  twice_queue = take 0 once_queue ++ (second_part ++ drop (0 + length second_part) once_queue)

  queue_write-straight :
      off + len + n ≤ size → queue_write b input inl_ ≡ some (pos n, with_queue straight_queue)
  unfolding queue_write
  queue_write-straight h = ground (arith, length-take n input)

  queue_write-wrapped :
      size < off + len + n → queue_write b input inl_ ≡ some (pos n, with_queue twice_queue)
  unfolding queue_write
  queue_write-wrapped h = ground (
    arith,
    length-take (size - (off + len)) input,
    length-take (n - (size - (off + len))) (drop (size - (off + len)) input),
    length-drop (size - (off + len)) input,
    once_length,
  )
    where
      once_length : length once_queue ≡ size
      once_length = omega (
        arith,
        length-append (take (off + len) queue)
            (first_part ++ drop (off + len + length first_part) queue),
        length-append first_part (drop (off + len + length first_part) queue),
        length-take (off + len) queue,
        length-take (size - (off + len)) input,
        length-drop (off + len + length first_part) queue,
      )

  length-twice : off + len ≤ size → size ≤ off + len + n → length twice_queue ≡ size
  length-twice h k = omega (
    arith,
    length-append second_part (drop (0 + length second_part) once_queue),
    length-drop (0 + length second_part) once_queue,
    length-append (take (off + len) queue)
        (first_part ++ drop (off + len + length first_part) queue),
    length-append first_part (drop (off + len + length first_part) queue),
    length-take (off + len) queue,
    length-take (size - (off + len)) input,
    length-take (n - (size - (off + len))) (drop (size - (off + len)) input),
    length-drop (size - (off + len)) input,
    length-drop (off + len + length first_part) queue,
  )

  length-straight : off + len + n ≤ size → length straight_queue ≡ size
  length-straight h = omega (
    arith,
    length-append (take (off + len) queue)
        (take n input ++ drop (off + len + length (take n input)) queue),
    length-append (take n input) (drop (off + len + length (take n input)) queue),
    length-take (off + len) queue,
    length-take n input,
    length-drop (off + len + length (take n input)) queue,
  )

  with_queue-Queued :
      (q : List ℕ)
      → length q ≡ size
      → take (len + n) (drop off (q ++ q)) ≡ take len (drop off queue) ++ take n input
      → Queued b input n (with_queue q)
  with_queue-Queued q e h = record {
    valid = ground arith;
    queued = h ∙ ap (λ k. k ++ take n input) (sym (unrolled-straight queue off len (omega arith)));
    memory_kept = refl;
    buffer_kept = refl;
    left_kept = refl;
    offset_kept = refl;
    length_grown = refl;
  }

  straight-Queued : off + len + n ≤ size → Queued b input n (with_queue straight_queue)
  straight-Queued h = with_queue-Queued straight_queue (length-straight h) (
      unrolled-straight straight_queue off (len + n) (omega (arith, length-straight h))
      ∙ ap (λ k. take (len + k) (drop off straight_queue)) {y = length (take n input)}
          (omega (arith, length-take n input))
      ∙ contents-splice queue (take n input) (drop (off + len + length (take n input)) queue) off
          len (omega arith))

  wrapped-Queued : size < off + len + n → Queued b input n (with_queue twice_queue)
  wrapped-Queued h = with_queue-Queued twice_queue (length-twice fits (omega arith)) (
      ap (λ q. take (len + n) (drop off (q ++ q))) shape
      ∙ ap (λ k. take k (drop off (turned ++ turned)))
          {y = len + (length first_part + length second_part)}
          (omega (arith, first-length, second-length))
      ∙ contents-wrap queue first_part second_part off len (omega (arith, first-length))
          (omega (arith, second-length))
      ∙ ap (◌++◌ (take len (drop off queue)))
          (take-split input (size - (off + len)) n (omega arith)))
    where
      first-length : length first_part ≡ size - (off + len)
      first-length = omega (arith, length-take (size - (off + len)) input)

      second-length : length second_part ≡ n - (size - (off + len))
      second-length = omega (
        arith,
        length-take (n - (size - (off + len))) (drop (size - (off + len)) input),
        length-drop (size - (off + len)) input,
      )

      turned : List ℕ
      turned = second_part ++ drop (length second_part) once_queue

      shape : twice_queue ≡ turned
      shape = ap (λ k. second_part ++ drop k once_queue) (omega arith)

-- A BIO whose queue ends before the end of the internal buffer, and is not full, takes as many bytes
-- of the input as there is free space for, returns that number, and appends exactly those bytes to
-- the queue, going round the end of the buffer if need be. There is no undefined behaviour.
pub queue_write_lem :
    (b : ByteBufferBio) (input : List ℕ) (inl_ : ℕ)
    → IsValid b
    → b.non_application_buffer_offset + b.non_application_buffer_length
      ≤ b.non_application_buffer_size
    → b.non_application_buffer_length < b.non_application_buffer_size
    → inl_ ≤ length input
    → let n : ℕ = min (b.non_application_buffer_size - b.non_application_buffer_length) inl_ in
      (c : ByteBufferBio) × (queue_write b input inl_ ≡ some (pos n, c)) × Queued b input n c
queue_write_lem b input inl_ v fits room given =
    let n : ℕ = min (b.non_application_buffer_size - b.non_application_buffer_length) inl_ in
    elim (Bool-cases (
      leb (b.non_application_buffer_offset + b.non_application_buffer_length + n)
        b.non_application_buffer_size)) [
          | inl h ↦ (
            _,
            queue_write-straight b v input inl_ n fits room given refl (leb→le _ _ h),
            straight-Queued b v input inl_ n fits room given refl (leb→le _ _ h),
          )
          | inr h ↦ (
            _,
            queue_write-wrapped b v input inl_ n fits room given refl (not-leb→lt _ _ h),
            wrapped-Queued b v input inl_ n fits room given refl (not-leb→lt _ _ h),
          )
        ]
