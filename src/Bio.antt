-- ===== src/Bio.antt =====
-- The Java ByteBuffer BIO of openssl-dynamic/src/main/c/ssl.c: `struct TCN_bio_bytebuffer`, its
-- BIO methods and the JNI calls that attach a ByteBuffer to it. A function that updates
-- `*bioUserData` returns the new record; `none` is undefined behaviour (a memcpy out of bounds).
pub mod Ring
pub mod Splice
pub mod Write
pub mod Flush
pub mod Sink
pub mod Read
pub mod RoundTrip
pub mod Defect
pub mod Life
mod Tests
use netty_tcnative.Base.{
  ℕ, suc, ◌+◌, ◌-◌, min, Bool, true, false, ◌&&◌, ◌||◌, not, Option, none, some, List, [], ◌∷◌,
  length, take, drop, read_at, write_at, ltb, ◌==◌, if◌then◌else◌, ◌>>=◌, replicate,
}
use netty_tcnative.Base.Int.{ℤ, pos, negsuc, sub_ℕ, size_t, exceeds, not_positive, is_negative}
use netty_tcnative.Base.Jni.{Outcome, returned, thrown, null_pointer, illegal_argument}

-- The memory that Java's direct buffers live in: the byte at each address.
abbrev pub Memory : Type 0
Memory = ℕ → ℕ

-- `memcpy` of a byte string to an address.
abbrev pub store : Memory → ℕ → List ℕ → Memory
store m a [] = m
store m a (x ∷ xs) = store (λ q. if q == a then x else m q) (suc a) xs

-- `memcpy` of `n` bytes from an address.
abbrev pub load : Memory → ℕ → ℕ → List ℕ
load m a ℕ.zero = []
load m a (suc n) = m a ∷ load m (suc a) n

-- The retry flags of the BIO.
pub data Retry : Type 0 where
  no_retry retry_write retry_read : Retry

-- `struct TCN_bio_bytebuffer`, with the memory behind `buffer` and the flags of its BIO.
-- Address 0 is NULL. `nonApplicationBuffer` is NULL until `bioNewByteBuffer` allocates it.
pub record ByteBufferBio : Type 0 where
  pub memory : Memory
  pub buffer : ℕ
  pub non_application_buffer : List ℕ
  pub non_application_buffer_size : ℕ
  pub non_application_buffer_offset : ℕ
  pub non_application_buffer_length : ℕ
  pub buffer_length : ℕ
  pub buffer_is_ssl_write_sink : Bool
  pub retry : Retry

-- `bufferLength`, `buffer` and `nonApplicationBufferLength` after `n` queued bytes went out, and
-- the reset of the offset of an empty queue.
abbrev drained : ByteBufferBio → ℕ → Memory → ℕ → ByteBufferBio
drained b n m offset = record b {
  memory = m;
  buffer = b.buffer + n;
  non_application_buffer_offset = if b.non_application_buffer_length - n == 0 then 0 else offset;
  non_application_buffer_length = b.non_application_buffer_length - n;
  buffer_length = b.buffer_length - n;
}

-- `writeChunk` may be negative in principle; the cast of its size is written out.
pub flush_sslbuffer_to_bytebuffer : ByteBufferBio → Option (ℕ × ByteBufferBio)
flush_sslbuffer_to_bytebuffer b =
    let write_amount : ℕ = min b.buffer_length b.non_application_buffer_length in
    let write_chunk : ℤ = sub_ℕ b.non_application_buffer_size b.non_application_buffer_offset in
    let queue : List ℕ = b.non_application_buffer in
    if exceeds write_amount write_chunk
    then (read_at queue b.non_application_buffer_offset (size_t write_chunk) >>= λ first.
        read_at queue 0 (write_amount - size_t write_chunk) >>= λ second. some (
          write_amount,
          drained b write_amount
              (store (store b.memory b.buffer first) (b.buffer + size_t write_chunk) second)
              (write_amount - size_t write_chunk),
        ))
    else (read_at queue b.non_application_buffer_offset write_amount >>= λ bytes. some (
      write_amount,
      drained b write_amount (store b.memory b.buffer bytes)
          (b.non_application_buffer_offset + write_amount),
    ))

-- The branch of `tcn_write_to_bytebuffer` that queues into the internal buffer.
pub queue_write : ByteBufferBio → List ℕ → ℕ → Option (ℤ × ByteBufferBio)
queue_write b input inl =
    let free_space : ℕ = b.non_application_buffer_size - b.non_application_buffer_length in
    let write_amount : ℕ = min free_space inl in
    let start_index : ℕ = b.non_application_buffer_offset + b.non_application_buffer_length in
    let write_chunk : ℤ = sub_ℕ b.non_application_buffer_size start_index in
    let queue : List ℕ = b.non_application_buffer in
    if free_space == 0
    then some (negsuc 0, record b { retry = retry_write })
    else if exceeds write_amount write_chunk
    then (read_at input 0 (size_t write_chunk) >>= λ first.
        write_at queue start_index first >>= λ once.
        read_at input (size_t write_chunk) (write_amount - size_t write_chunk) >>= λ second.
        write_at once 0 second >>= λ twice. some (
          pos write_amount,
          record b {
            non_application_buffer = twice;
            non_application_buffer_length = b.non_application_buffer_length + write_amount;
          },
        ))
    else (read_at input 0 write_amount >>= λ bytes. write_at queue start_index bytes >>= λ once.
        some (
          pos write_amount,
          record b {
            non_application_buffer = once;
            non_application_buffer_length = b.non_application_buffer_length + write_amount;
          },
        ))

-- The queued bytes that go out before the input.
pub drain_first : ByteBufferBio → Option (ℕ × ByteBufferBio)
drain_first b =
    if b.non_application_buffer_length == 0 then some (0, b) else flush_sslbuffer_to_bytebuffer b

-- The branch that writes to the ByteBuffer, after draining what is queued.
pub sink_write : ByteBufferBio → List ℕ → ℕ → Option (ℤ × ByteBufferBio)
sink_write b input inl =
    if b.buffer == 0 || b.buffer_length == 0
    then some (negsuc 0, record b { retry = retry_write })
    else (drain_first b >>= λ (write_amount, c).
        read_at input 0 (min c.buffer_length inl) >>= λ bytes. some (
          pos (write_amount + min c.buffer_length inl),
          record c {
            memory = store c.memory c.buffer bytes;
            buffer = c.buffer + min c.buffer_length inl;
            buffer_length = c.buffer_length - min c.buffer_length inl;
          },
        ))

-- `tcn_write_to_bytebuffer`. The input is `none` for a NULL pointer.
pub write_to_bytebuffer : ByteBufferBio → Option (List ℕ) → ℤ → Option (ℤ × ByteBufferBio)
write_to_bytebuffer b none inl = some (pos 0, b)
write_to_bytebuffer b (some input) inl =
    if not_positive inl
    then some (pos 0, b)
    else if not b.buffer_is_ssl_write_sink
    then queue_write b input (size_t inl)
    else sink_write b input (size_t inl)

-- `tcn_read_from_bytebuffer`; the answer carries the bytes that go to `out`.
pub read_from_bytebuffer : ByteBufferBio → Bool → ℤ → ℤ × List ℕ × ByteBufferBio
read_from_bytebuffer b out_is_null outl =
    if out_is_null || not_positive outl
    then (pos 0, [], b)
    else if b.buffer_is_ssl_write_sink || b.buffer == 0 || b.buffer_length == 0
    then (negsuc 0, [], record b { retry = retry_read })
    else (let read_amount : ℕ = min b.buffer_length (size_t outl) in
        (
          pos read_amount,
          load b.memory b.buffer read_amount,
          record b {
            buffer = b.buffer + read_amount;
            buffer_length = b.buffer_length - read_amount;
          },
        ))

-- `bio_java_bytebuffer_write` and `bio_java_bytebuffer_read`: the flags are cleared first.
pub bytebuffer_write : ByteBufferBio → Option (List ℕ) → ℤ → Option (ℤ × ByteBufferBio)
bytebuffer_write b input inl = write_to_bytebuffer (record b { retry = no_retry }) input inl

pub bytebuffer_read : ByteBufferBio → Bool → ℤ → ℤ × List ℕ × ByteBufferBio
bytebuffer_read b out_is_null outl =
    read_from_bytebuffer (record b { retry = no_retry }) out_is_null outl

-- The bytes of a C string before its NUL, which is what `strlen` counts.
abbrev pub c_string : List ℕ → List ℕ
c_string [] = []
c_string (x ∷ xs) = if x == 0 then [] else x ∷ c_string xs

pub bytebuffer_puts : ByteBufferBio → List ℕ → Option (ℤ × ByteBufferBio)
bytebuffer_puts b input =
    write_to_bytebuffer (record b { retry = no_retry }) (some input) (pos (length (c_string input)))

-- `SSL.bioLengthByteBuffer` and `SSL.bioLengthNonApplication` of a BIO that is not NULL; `none` is
-- a BIO without data.
pub bio_length_byte_buffer : Option ByteBufferBio → ℕ
bio_length_byte_buffer none = 0
bio_length_byte_buffer (some b) = b.buffer_length

pub bio_length_non_application : Option ByteBufferBio → ℕ
bio_length_non_application none = 0
bio_length_non_application (some b) = b.non_application_buffer_length

-- `SSL.bioSetByteBuffer` after its null checks of `bio` and of its data.
pub bio_set_byte_buffer : ByteBufferBio → ℕ → ℤ → Bool → Outcome ByteBufferBio
bio_set_byte_buffer b address max_usable_bytes is_ssl_write_sink =
    if address == 0
    then thrown null_pointer
    else if is_negative max_usable_bytes
    then thrown illegal_argument
    else returned (record b {
      buffer = address;
      buffer_length = size_t max_usable_bytes;
      buffer_is_ssl_write_sink = is_ssl_write_sink;
    })

-- `SSL.bioClearByteBuffer` of a BIO with data.
pub bio_clear_byte_buffer : ByteBufferBio → ByteBufferBio
bio_clear_byte_buffer b = record b {
  buffer = 0;
  buffer_length = 0;
  buffer_is_ssl_write_sink = false;
}

-- `SSL.bioFlushByteBuffer` of a BIO with data.
pub bio_flush_byte_buffer : ByteBufferBio → Option (ℕ × ByteBufferBio)
bio_flush_byte_buffer b =
    if b.non_application_buffer_length == 0 || b.buffer == 0 || not b.buffer_is_ssl_write_sink
    then some (0, b)
    else flush_sslbuffer_to_bytebuffer b

-- `bio_java_bytebuffer_create`, with the memory of the process.
pub bytebuffer_create : Memory → ByteBufferBio
bytebuffer_create m = record {
  memory = m;
  buffer = 0;
  non_application_buffer = [];
  non_application_buffer_size = 0;
  non_application_buffer_offset = 0;
  non_application_buffer_length = 0;
  buffer_length = 0;
  buffer_is_ssl_write_sink = false;
  retry = no_retry;
}
