-- ===== src/Bio/Defect.antt =====
-- What `tcn_write_to_bytebuffer` does once the queue reaches past the end of the internal buffer.
use netty_tcnative.Base.{ℕ, ◌+◌, ◌<◌, ◌≡◌, List, none, length, arith}
use netty_tcnative.Bio.{ByteBufferBio, queue_write}
use netty_tcnative.Bio.Ring.{IsValid}

-- A valid BIO whose queue has gone round the end of the internal buffer, with room left: the next
-- write of one byte or more has undefined behaviour, since `writeChunk` is negative and is cast to
-- a `size_t` for `memcpy`.
pub queue_write-wrapped_faults :
    (b : ByteBufferBio) (input : List ℕ) (inl_ : ℕ)
    → IsValid b
    → b.non_application_buffer_size
      < b.non_application_buffer_offset + b.non_application_buffer_length
    → b.non_application_buffer_length < b.non_application_buffer_size
    → 0 < inl_
    → length input < 2147483648
    → queue_write b input inl_ ≡ none
unfolding queue_write
queue_write-wrapped_faults b input inl_ v h room more small = ground arith
