-- ===== src/Bio/Life.antt =====
-- Creating and destroying a ByteBuffer BIO: `SSL.bioNewByteBuffer`, `bio_java_bytebuffer_create`
-- and `bio_java_bytebuffer_destroy`, with the C allocations that they leave live.
use netty_tcnative.Base.{
  ℕ, ◌+◌, ◌-◌, ◌<◌, ◌≡◌, Bool, true, false, Option, some, none, List, length, arith, if◌then◌else◌,
  not,
}
use netty_tcnative.Base.Int.{ℤ, not_positive, size_t}
use netty_tcnative.Base.Jni.{Outcome, returned, thrown, null_pointer, illegal_argument, exception}
use netty_tcnative.Bio.{ByteBufferBio, Memory, bytebuffer_create}
use netty_tcnative.Bio.Ring.{IsValid}

-- What the C allocator and OpenSSL answer during one call. `fresh` is what a new internal buffer
-- happens to hold.
pub record Answers : Type 0 where
  pub bio_allocated : Bool
  pub user_data_allocated : Bool
  pub buffer_allocated : Bool
  pub fresh : List ℕ

-- A BIO object of OpenSSL, whose data `BIO_get_data` returns, and the number of live allocations
-- that belong to it: the BIO, the user data and the internal buffer.
pub record BioObject : Type 0 where
  pub bio_data : Option ByteBufferBio
  pub has_internal_buffer : Bool
  pub live : ℕ

-- `BIO_new` allocates a BIO and calls `bio_java_bytebuffer_create`; when that returns 0 the BIO is
-- freed and NULL is returned.
pub bio_new : Memory → Answers → ℕ → Option BioObject × ℕ
bio_new m a live =
    if not a.bio_allocated
    then (none, live)
    else if not a.user_data_allocated
    then (none, live)
    else (
      some
          (record { bio_data = some (bytebuffer_create m); has_internal_buffer = false; live = 2 }),
      live + 2,
    )

-- `bio_java_bytebuffer_destroy`, which frees the internal buffer if there is one, and the user data.
pub bytebuffer_destroy : BioObject → BioObject
bytebuffer_destroy o = elim o.bio_data [
  | none ↦ o
  | some b ↦ record {
    bio_data = none;
    has_internal_buffer = false;
    live = (if o.has_internal_buffer then o.live - 1 else o.live) - 1;
  }
]

-- `BIO_free` calls the destroy method and frees the BIO itself.
pub bio_free : BioObject → ℕ
unfolding bytebuffer_destroy
bio_free o = (bytebuffer_destroy o).live - 1

-- The rest of `SSL.bioNewByteBuffer` once `BIO_new` gave a BIO: its data, and the internal buffer.
pub attach_internal_buffer :
    ℤ → Answers → ℕ → BioObject → Option ByteBufferBio → Outcome BioObject × ℕ
unfolding bio_free
attach_internal_buffer size a now o none = (thrown exception, now - o.live + bio_free o)
attach_internal_buffer size a now o (some b) =
    if not a.buffer_allocated then (thrown exception, now - o.live + bio_free o) else (
      returned (record {
        bio_data = some (record b {
          non_application_buffer = a.fresh;
          non_application_buffer_size = size_t size;
        });
        has_internal_buffer = true;
        live = o.live + 1;
      }),
      now + 1,
    )

pub with_new_bio : ℤ → Answers → Option BioObject × ℕ → Outcome BioObject × ℕ
unfolding attach_internal_buffer
with_new_bio size a (none, now) = (thrown exception, now)
with_new_bio size a (some o, now) = attach_internal_buffer size a now o o.bio_data

-- `SSL.bioNewByteBuffer`: the outcome, and the number of live allocations afterwards.
unfoldable pub bio_new_byte_buffer : Bool → ℤ → Memory → Answers → ℕ → Outcome BioObject × ℕ
unfolding bio_new with_new_bio
bio_new_byte_buffer ssl_is_null size m a live =
    if ssl_is_null
    then (thrown null_pointer, live)
    else if not_positive size
    then (thrown illegal_argument, live)
    else with_new_bio size a (bio_new m a live)

-- What a call may leave behind: nothing after an exception, and after a success a BIO that accounts
-- for every new allocation, whose destruction frees them all.
abbrev pub Accounts : ℕ → Outcome BioObject × ℕ → Type 0
Accounts live (returned o, now) = (now ≡ live + o.live) × (o.live ≡ 3) × (bio_free o ≡ 0)
Accounts live (thrown x, now) = now ≡ live

-- `SSL.bioNewByteBuffer` leaks nothing: whatever allocation fails, an exception leaves as many live
-- allocations as before, and a BIO that is returned owns the three new ones, which `BIO_free`
-- frees.
pub bio_new_byte_buffer-Accounts :
    (ssl_is_null : Bool) (size : ℤ) (m : Memory) (a : Answers) (live : ℕ)
    → Accounts live (bio_new_byte_buffer ssl_is_null size m a live)
unfolding bio_new_byte_buffer bytebuffer_create
bio_new_byte_buffer-Accounts ssl_is_null size m a live = ground arith

-- The data of the BIO that an outcome holds.
abbrev pub data_of : Outcome BioObject × ℕ → Option ByteBufferBio
data_of (returned o, now) = o.bio_data
data_of (thrown x, now) = none

-- A BIO that `SSL.bioNewByteBuffer` returns is valid, for an internal buffer of the size asked for;
-- its queue is empty and starts at offset 0, and no ByteBuffer is attached.
pub bio_new_byte_buffer-IsValid :
    (ssl_is_null : Bool) (size : ℤ) (m : Memory) (a : Answers) (live : ℕ) {b : ByteBufferBio}
    → length a.fresh ≡ size_t size
    → size_t size < 2147483648
    → data_of (bio_new_byte_buffer ssl_is_null size m a live) ≡ some b
    → IsValid b
      × (b.non_application_buffer_length ≡ 0)
      × (b.non_application_buffer_offset ≡ 0)
      × (0 < b.non_application_buffer_size)
      × (b.buffer ≡ 0)
unfolding bio_new_byte_buffer bytebuffer_create
bio_new_byte_buffer-IsValid ssl_is_null size m a live sized small e = ground arith
