-- ===== src/Bio/Tests.antt =====
-- The theorems on the ByteBuffer BIO at concrete BIOs, and runs of its functions.
use netty_tcnative.Base.{
  ℕ, ◌≤◌, ◌≡◌, refl, Bool, true, false, Option, none, some, List, [], ◌∷◌, ◌++◌, take, drop, arith,
  ◌>>=◌,
}
use netty_tcnative.Base.Int.{ℤ, pos}
use netty_tcnative.Base.Jni.{Outcome, returned}
use netty_tcnative.Bio.{
  Memory, ByteBufferBio, store, no_retry, flush_sslbuffer_to_bytebuffer, queue_write, sink_write,
  bytebuffer_write, write_to_bytebuffer, bio_set_byte_buffer, bio_flush_byte_buffer,
  bio_clear_byte_buffer, bytebuffer_create,
}
use netty_tcnative.Bio.Ring.{IsValid, contents}
use netty_tcnative.Bio.Flush.{Flushed, flush_lem}
use netty_tcnative.Bio.Write.{Queued, queue_write_lem}
use netty_tcnative.Bio.Sink.{delivered, sink_write_lem}
use netty_tcnative.Bio.RoundTrip.{write-flush}
use netty_tcnative.Bio.Defect.{queue_write-wrapped_faults}
use netty_tcnative.Bio.Life.{Answers, Accounts, bio_new_byte_buffer, bio_new_byte_buffer-Accounts}

-- Memory in which every byte is its address.
abbrev memory_0 : Memory
memory_0 a = a

-- An internal buffer of 4 bytes with the given queue, and a ByteBuffer of 3 bytes at address 100.
abbrev bio_of : Bool → ℕ → ℕ → ByteBufferBio
bio_of sink offset len = record {
  memory = memory_0;
  buffer = 100;
  non_application_buffer = 10 ∷ 11 ∷ 12 ∷ 13 ∷ [];
  non_application_buffer_size = 4;
  non_application_buffer_offset = offset;
  non_application_buffer_length = len;
  buffer_length = 3;
  buffer_is_ssl_write_sink = sink;
  retry = no_retry;
}

bio_of-IsValid :
    (sink : Bool) (offset len : ℕ) → offset ≤ 4 → len ≤ 4 → IsValid (bio_of sink offset len)
bio_of-IsValid sink offset len h k = record {
  sized = refl;
  offset_in = h;
  length_in = k;
  small = omega arith;
}

abbrev wrapped : ByteBufferBio
wrapped = bio_of true 3 2

abbrev queueing : ByteBufferBio
queueing = bio_of false 1 2

flush_lem_example :
    (c : ByteBufferBio) × (flush_sslbuffer_to_bytebuffer wrapped ≡ some (2, c))
    × Flushed wrapped 2 c
flush_lem_example = flush_lem wrapped (bio_of-IsValid true 3 2 (omega arith) (omega arith))

queue_write_lem_example :
    (c : ByteBufferBio) × (queue_write queueing (7 ∷ 8 ∷ 9 ∷ []) 3 ≡ some (pos 2, c))
    × Queued queueing (7 ∷ 8 ∷ 9 ∷ []) 2 c
queue_write_lem_example =
    queue_write_lem queueing (7 ∷ 8 ∷ 9 ∷ []) 3
      (bio_of-IsValid false 1 2 (omega arith) (omega arith)) (omega arith) (omega arith)
      (omega arith)

sink_write_lem_example :
    (c : ByteBufferBio) × (sink_write wrapped (7 ∷ 8 ∷ []) 2 ≡ some (pos 3, c))
    × (c.memory ≡ store memory_0 100 (delivered wrapped (7 ∷ 8 ∷ []) 2))
    × (contents c ≡ drop 3 (contents wrapped))
    × IsValid c
sink_write_lem_example =
    sink_write_lem wrapped (7 ∷ 8 ∷ []) 2 (bio_of-IsValid true 3 2 (omega arith) (omega arith))
      (omega arith) (omega arith) (omega arith)

write-flush_example :
    (c : ByteBufferBio) × (d : ByteBufferBio) × (f : ByteBufferBio) × (bytebuffer_write
        (bio_of false 0 0)
        (some (7 ∷ 8 ∷ []))
        (pos 2)
      ≡ some (pos 2, c))
    × (bio_set_byte_buffer c 200 (pos 9) true ≡ returned d)
    × (bio_flush_byte_buffer d ≡ some (2, f))
    × (f.memory ≡ store memory_0 200 (take 2 (7 ∷ 8 ∷ [])))
    × (f.non_application_buffer_length ≡ 0)
write-flush_example =
    write-flush (bio_of false 0 0) (7 ∷ 8 ∷ []) 200 9
      (bio_of-IsValid false 0 0 (omega arith) (omega arith)) refl refl (omega arith) refl
      (omega arith) (omega arith) (omega arith)

queue_write-wrapped_faults_example : queue_write (bio_of false 3 2) (7 ∷ []) 1 ≡ none
queue_write-wrapped_faults_example =
    queue_write-wrapped_faults (bio_of false 3 2) (7 ∷ []) 1
      (bio_of-IsValid false 3 2 (omega arith) (omega arith)) (omega arith) (omega arith)
      (omega arith) (omega arith)

abbrev answers_of : Bool → Answers
answers_of buffer_allocated = record {
  bio_allocated = true;
  user_data_allocated = true;
  buffer_allocated = buffer_allocated;
  fresh = 1 ∷ 2 ∷ 3 ∷ [];
}

bio_new_byte_buffer-Accounts_example :
    Accounts 5 (bio_new_byte_buffer false (pos 3) memory_0 (answers_of false) 5)
bio_new_byte_buffer-Accounts_example =
    bio_new_byte_buffer-Accounts false (pos 3) memory_0 (answers_of false) 5

-- The BIO that the call makes.
abbrev made : ByteBufferBio
made = record (bytebuffer_create memory_0) {
  non_application_buffer = 1 ∷ 2 ∷ 3 ∷ [];
  non_application_buffer_size = 3;
}

-- An internal buffer of 10 bytes: 8 bytes are queued, a ByteBuffer of 5 bytes is attached, flushed
-- into and cleared, and 5 more bytes are queued. The queue now goes round the end, and the next
-- write of one byte has undefined behaviour.
abbrev start : ByteBufferBio
start = record (bytebuffer_create memory_0) {
  non_application_buffer = 0 ∷ 0 ∷ 0 ∷ 0 ∷ 0 ∷ 0 ∷ 0 ∷ 0 ∷ 0 ∷ 0 ∷ [];
  non_application_buffer_size = 10;
}

-- The ByteBuffer is attached as the sink, if it may be.
abbrev attach : Outcome ByteBufferBio → Option ByteBufferBio
attach (returned b) = some b
attach _ = none

abbrev five : List ℕ
five = 1 ∷ 2 ∷ 3 ∷ 4 ∷ 5 ∷ []

abbrev scenario : Option (ℤ × ByteBufferBio)
scenario = bytebuffer_write start (some (five ++ (6 ∷ 7 ∷ 8 ∷ []))) (pos 8) >>= λ (n, b).
    attach (bio_set_byte_buffer b 100 (pos 5) true) >>= λ c. bio_flush_byte_buffer c >>= λ (m, d).
    bytebuffer_write (bio_clear_byte_buffer d) (some five) (pos 5) >>= λ (k, f).
    bytebuffer_write f (some (9 ∷ [])) (pos 1)

scenario_faults : scenario ≡ none
unfolding bytebuffer_write bio_flush_byte_buffer bio_clear_byte_buffer bio_set_byte_buffer
    bytebuffer_create write_to_bytebuffer queue_write flush_sslbuffer_to_bytebuffer
scenario_faults = refl
