-- ===== src/Bio/RoundTrip.antt =====
-- What is queued without a sink, on its way to the ByteBuffer.
use netty_tcnative.Base.{
  ℕ, ◌-◌, ◌≤◌, ◌≢◌, min, ◌≡◌, refl, ap, ap₂, subst, length-take, ◌∙◌, true, false, some, List, [],
  ◌||◌, ◌++◌, length, take, arith, ◌==◌, take-all,
}
use netty_tcnative.Base.Int.{pos}
use netty_tcnative.Base.Jni.{returned}
use netty_tcnative.Bio.{
  ByteBufferBio, store, bytebuffer_write, write_to_bytebuffer, bio_set_byte_buffer,
  bio_flush_byte_buffer, flush_sslbuffer_to_bytebuffer, queue_write, no_retry,
}
use netty_tcnative.Bio.Ring.{IsValid, contents, unrolled}
use netty_tcnative.Bio.Write.{Queued, queue_write_lem}
use netty_tcnative.Bio.Flush.{Flushed, flush_lem}

bytebuffer_write-queueing :
    (b : ByteBufferBio) (input : List ℕ)
    → b.buffer_is_ssl_write_sink ≡ false
    → length input ≢ 0
    → bytebuffer_write b (some input) (pos (length input))
      ≡ queue_write (record b { retry = no_retry }) input (length input)
unfolding bytebuffer_write write_to_bytebuffer
bytebuffer_write-queueing b input queueing more = rw (queueing, some_bytes) refl
  where
    some_bytes : (length input == 0) ≡ false
    some_bytes = ground arith

bio_flush-ready :
    (c : ByteBufferBio)
    → c.non_application_buffer_length ≢ 0
    → c.buffer ≢ 0
    → c.buffer_is_ssl_write_sink ≡ true
    → bio_flush_byte_buffer c ≡ flush_sslbuffer_to_bytebuffer c
unfolding bio_flush_byte_buffer
bio_flush-ready c more attached sink = rw (sink, ready) refl
  where
    ready : (c.non_application_buffer_length == 0 || c.buffer == 0 || false) ≡ false
    ready = ground arith

-- The flush of a BIO whose whole queue fits the sink that is attached to it.
flush_attached :
    (c : ByteBufferBio) (bytes : List ℕ) (address room n : ℕ)
    → IsValid c
    → contents c ≡ bytes
    → c.non_application_buffer_length ≡ n
    → n ≢ 0
    → n ≤ room
    → address ≢ 0
    → (d : ByteBufferBio) × (f : ByteBufferBio) × (bio_set_byte_buffer c address (pos room) true
        ≡ returned d)
      × (bio_flush_byte_buffer d ≡ some (n, f))
      × (f.memory ≡ store c.memory address (take n bytes))
      × (f.non_application_buffer_length ≡ 0)
unfolding bio_set_byte_buffer
flush_attached c bytes address room n v holds counted more fits attached =
    (d, f, ground arith, flushes, received, omega (arith, flushed.length_left))
  where
    d : ByteBufferBio
    d = record c { buffer = address; buffer_length = room; buffer_is_ssl_write_sink = true }

    vd : IsValid d
    vd = record {
      sized = v.sized;
      offset_in = v.offset_in;
      length_in = v.length_in;
      small = v.small;
    }

    f : ByteBufferBio
    f = (flush_lem d vd).0

    whole : min room c.non_application_buffer_length ≡ n
    whole = omega arith

    flushed : Flushed d n f
    flushed = subst (λ k. Flushed d k f) whole (flush_lem d vd).2

    flushes : bio_flush_byte_buffer d ≡ some (n, f)
    flushes =
        bio_flush-ready d (omega arith) attached refl
        ∙ (flush_lem d vd).1
        ∙ ap (λ k. some (k, f)) whole

    received : f.memory ≡ store c.memory address (take n bytes)
    received = flushed.written ∙ ap (λ k. store c.memory address (take n k)) holds

-- Bytes written to a BIO with an empty queue that starts at offset 0 while no sink is attached, and
-- then flushed to a ByteBuffer with room for them that is attached as the sink, arrive there
-- unchanged, and the flush returns their number: as many as fit the internal buffer.
pub write-flush :
    (b : ByteBufferBio) (input : List ℕ) (address room : ℕ)
    → IsValid b
    → b.non_application_buffer_length ≡ 0
    → b.non_application_buffer_offset ≡ 0
    → b.non_application_buffer_size ≢ 0
    → b.buffer_is_ssl_write_sink ≡ false
    → length input ≢ 0
    → address ≢ 0
    → b.non_application_buffer_size ≤ room
    → let n : ℕ = min b.non_application_buffer_size (length input) in
      (c : ByteBufferBio) × (d : ByteBufferBio) × (f : ByteBufferBio) × (bytebuffer_write b
          (some input)
          (pos (length input))
        ≡ some (pos n, c))
      × (bio_set_byte_buffer c address (pos room) true ≡ returned d)
      × (bio_flush_byte_buffer d ≡ some (n, f))
      × (f.memory ≡ store b.memory address (take n input))
      × (f.non_application_buffer_length ≡ 0)
write-flush b input address room v empty start sized queueing more attached fits =
    (c, last.0, last.1, writes, last.2, last.3, received, last.5)
  where
    n : ℕ
    n = min b.non_application_buffer_size (length input)

    n' : ℕ
    n' = min (b.non_application_buffer_size - b.non_application_buffer_length) (length input)

    same : n' ≡ n
    same = omega arith

    b0 : ByteBufferBio
    b0 = record b { retry = no_retry }

    v0 : IsValid b0
    v0 = record {
      sized = v.sized;
      offset_in = v.offset_in;
      length_in = v.length_in;
      small = v.small;
    }

    queued :
        (c : ByteBufferBio) × (queue_write b0 input (length input) ≡ some (pos n', c))
        × Queued b0 input n' c
    queued = queue_write_lem b0 input (length input) v0 (omega arith) (omega arith) (omega arith)

    c : ByteBufferBio
    c = queued.0

    q : Queued b0 input n c
    q = subst (λ k. Queued b0 input k c) same queued.2

    nothing : contents b0 ≡ []
    nothing = ap (λ k. take k (unrolled b0)) empty

    last :
        (d : ByteBufferBio) × (f : ByteBufferBio) × (bio_set_byte_buffer c address (pos room) true
          ≡ returned d)
        × (bio_flush_byte_buffer d ≡ some (n, f))
        × (f.memory ≡ store c.memory address (take n (take n input)))
        × (f.non_application_buffer_length ≡ 0)
    last =
        flush_attached c (take n input) address room n q.valid
          (q.queued ∙ ap (λ k. k ++ take n input) nothing) (omega (arith, q.length_grown))
          (omega arith) (omega arith) attached

    writes : bytebuffer_write b (some input) (pos (length input)) ≡ some (pos n, c)
    writes =
        bytebuffer_write-queueing b input queueing more ∙ queued.1 ∙ ap (λ k. some (pos k, c)) same

    received : last.1.memory ≡ store b.memory address (take n input)
    received =
        last.4
        ∙ ap₂ (λ m k. store m address k) q.memory_kept
            (take-all n (take n input) (omega (arith, length-take n input)))
