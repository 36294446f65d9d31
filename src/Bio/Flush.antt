-- ===== src/Bio/Flush.antt =====
-- `tcn_flush_sslbuffer_to_bytebuffer` against the queue in the internal buffer.
use netty_tcnative.Base.{
  ℕ, ◌+◌, ◌-◌, ◌≤◌, ◌<◌, min, ◌≡◌, refl, sym, ap, ◌∙◌, List, ◌++◌, some, length, take, drop, arith,
  length-drop, ap₂, leb→le, not-leb→lt, take-take, drop-all, take-all, leb, ◌==◌, ==_iff,
  Bool-cases, inl, inr, if◌then◌else◌,
}
use netty_tcnative.Bio.{ByteBufferBio, Memory, store, drained, flush_sslbuffer_to_bytebuffer}
use netty_tcnative.Bio.Ring.{
  IsValid, contents, unrolled, store-append, unrolled-straight, unrolled-wrapped, unrolled-turn,
  contents-drop, length-contents,
}

-- What a flush of `n` bytes leaves: they are in memory at `buffer`, and gone from the queue.
pub record Flushed (b : ByteBufferBio) (n : ℕ) (c : ByteBufferBio) : Type 0 where
  pub valid : IsValid c
  pub written : c.memory ≡ store b.memory b.buffer (take n (contents b))
  pub queued : contents c ≡ drop n (contents b)
  pub buffer_moved : c.buffer ≡ b.buffer + n
  pub buffer_left : c.buffer_length ≡ b.buffer_length - n
  pub length_left : c.non_application_buffer_length ≡ b.non_application_buffer_length - n
  pub sink_kept : c.buffer_is_ssl_write_sink ≡ b.buffer_is_ssl_write_sink
  pub retry_kept : c.retry ≡ b.retry

module _ (b : ByteBufferBio) (v : IsValid b) where
  open b use {
    memory, buffer, non_application_buffer as queue, non_application_buffer_size as size,
    non_application_buffer_offset as off, non_application_buffer_length as len, buffer_length,
  }

  flush-straight :
      (n : ℕ)
      → n ≡ min buffer_length len
      → off + n ≤ size
      → flush_sslbuffer_to_bytebuffer b
        ≡ some (n, drained b n (store memory buffer (take n (drop off queue))) (off + n))
  unfolding flush_sslbuffer_to_bytebuffer
  flush-straight n e h = ground arith

  flush-wrapped :
      (n : ℕ)
      → n ≡ min buffer_length len
      → size < off + n
      → flush_sslbuffer_to_bytebuffer b
        ≡ some (
          n,
          drained b n
              (store
                (store memory buffer (take (size - off) (drop off queue)))
                (buffer + (size - off))
                (take (n - (size - off)) queue))
              (n - (size - off)),
        )
  unfolding flush_sslbuffer_to_bytebuffer
  flush-wrapped n e h = ground arith

  -- The bytes taken are those at the head of the queue.
  take-contents : (n : ℕ) → n ≤ len → take n (contents b) ≡ take n (unrolled b)
  take-contents n h = take-take n len (unrolled b) ∙ ap (λ k. take k (unrolled b)) (omega arith)

  -- The queue that a drain to the offset `o` leaves.
  contents-drained :
      (n o : ℕ) (m : Memory)
      → n ≤ len
      → take (len - n) (drop o (queue ++ queue)) ≡ drop n (contents b)
      → contents (drained b n m o) ≡ drop n (contents b)
  contents-drained n o m h e = elim (Bool-cases (len - n == 0)) [
    | inl z ↦
        ap (λ k. take k (drop (if k == 0 then 0 else o) (queue ++ queue))) {x = len - n} {y = 0}
          ((==_iff _ _).0 z)
        ∙ sym (drop-all n (contents b) (omega (arith, length-contents b v, (==_iff _ _).0 z)))
    | inr more ↦ rw more e
  ]

  -- A drain that wrote the head of the queue and moved the offset past it.
  drained-Flushed :
      (n o : ℕ) (m : Memory)
      → n ≤ len
      → n ≤ buffer_length
      → o ≤ size
      → m ≡ store memory buffer (take n (contents b))
      → take (len - n) (drop o (queue ++ queue)) ≡ drop n (contents b)
      → Flushed b n (drained b n m o)
  drained-Flushed n o m h k i written e = record {
    valid = ground arith;
    written = written;
    queued = contents-drained n o m h e;
    buffer_moved = refl;
    buffer_left = refl;
    length_left = refl;
    sink_kept = refl;
    retry_kept = refl;
  }

  flush-wrapped-Flushed :
      (n : ℕ)
      → n ≡ min buffer_length len
      → size < off + n
      → Flushed b n (
          drained b n
            (store
              (store memory buffer (take (size - off) (drop off queue)))
              (buffer + (size - off))
              (take (n - (size - off)) queue))
            (n - (size - off)))
  flush-wrapped-Flushed n e h =
      drained-Flushed n (n - (size - off)) _ (omega arith) (omega arith) (omega arith)
        (written ∙ ap (store memory buffer) (sym bytes ∙ sym (take-contents n (omega arith)))) left
    where
      head : List ℕ
      head = take (size - off) (drop off queue)

      head-all : head ≡ drop off queue
      head-all = take-all (size - off) (drop off queue) (omega (arith, length-drop off queue))

      bytes : take n (unrolled b) ≡ head ++ take (n - (size - off)) queue
      bytes =
          unrolled-wrapped queue off n (omega arith) (omega arith)
          ∙ ap₂ ◌++◌ (sym head-all) (ap (λ k. take (n - (k - off)) queue) v.sized)

      written :
          store (store memory buffer head) (buffer + (size - off)) (take (n - (size - off)) queue)
          ≡ store memory buffer (head ++ take (n - (size - off)) queue)
      written =
          ap (λ k. store (store memory buffer head) (buffer + k) (take (n - (size - off)) queue))
            (omega (arith, ap length head-all, length-drop off queue))
          ∙ store-append memory buffer head (take (n - (size - off)) queue)

      left : take (len - n) (drop (n - (size - off)) (queue ++ queue)) ≡ drop n (contents b)
      left =
          sym (unrolled-turn queue (n - (size - off)) (len - n) (omega arith))
          ∙ ap (λ k. take (len - n) (drop k (queue ++ queue))) (omega arith)
          ∙ sym (contents-drop queue off len n)

  flush-straight-Flushed :
      (n : ℕ)
      → n ≡ min buffer_length len
      → off + n ≤ size
      → Flushed b n (drained b n (store memory buffer (take n (drop off queue))) (off + n))
  flush-straight-Flushed n e h =
      drained-Flushed n (off + n) _ (omega arith) (omega arith) h
        (ap (store memory buffer)
          (sym (take-contents n (omega arith) ∙ unrolled-straight queue off n (omega arith))))
        (sym (contents-drop queue off len n))

-- On a valid BIO a flush has no undefined behaviour, wrapped queue or not: it returns the smaller
-- of the room in the ByteBuffer and the number of queued bytes, copies that many bytes from the
-- head of the queue to the ByteBuffer in order, takes them off the queue, and moves `buffer`.
pub flush_lem :
    (b : ByteBufferBio)
    → IsValid b
    → let n : ℕ = min b.buffer_length b.non_application_buffer_length in
      (c : ByteBufferBio) × (flush_sslbuffer_to_bytebuffer b ≡ some (n, c)) × Flushed b n c
flush_lem b v =
    let n : ℕ = min b.buffer_length b.non_application_buffer_length in
    elim (Bool-cases (leb (b.non_application_buffer_offset + n) b.non_application_buffer_size)) [
      | inl h ↦ (
        _,
        flush-straight b v n refl (leb→le _ _ h),
        flush-straight-Flushed b v n refl (leb→le _ _ h),
      )
      | inr h ↦ (
        _,
        flush-wrapped b v n refl (not-leb→lt _ _ h),
        flush-wrapped-Flushed b v n refl (not-leb→lt _ _ h),
      )
    ]
