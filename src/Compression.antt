-- ===== src/Compression.antt =====
-- Compression of certificates by a Java object: openssl-dynamic/src/main/c/cert_compress.c. `none` is
-- undefined behaviour (a memcpy out of bounds).
pub mod Exact
pub mod RoundTrip
mod Tests
use netty_tcnative.Base.{
  ℕ, ◌+◌, ◌-◌, ◌++◌, List, Bool, true, false, Option, none, some, ◌>>=◌, not, if◌then◌else◌, ◌==◌,
  length, take, write_at,
}
use netty_tcnative.Callbacks.{Slot, zlib, brotli, zstd, CallbackContext}

-- What a call of a Java method gives: an exception, a NULL array, or an array of bytes.
pub data JavaArray : Type 0 where
  threw : JavaArray
  null_array : JavaArray
  array : List ℕ → JavaArray

-- The bytes in the CBB or the CRYPTO_BUFFER for the result, the local references to Java arrays, the
-- byte arrays whose elements are pinned, and whether an exception is pending.
pub record Transfer : Type 0 where
  pub written : List ℕ
  pub buffer : Option (List ℕ)
  pub local_refs : ℕ
  pub pinned : ℕ
  pub pending : Bool

-- What the JNI and the library answer. `reserve` is CBB_reserve and `alloc` CRYPTO_BUFFER_alloc for a
-- number of bytes: the memory that they give, or NULL.
pub record TransferAnswers : Type 0 where
  pub has_env : Bool
  pub new_byte_array : Bool
  pub get_elements : Bool
  pub reserve : ℕ → Option (List ℕ)
  pub did_write : Bool
  pub alloc : ℕ → Option (List ℕ)

-- The end of a call of Java: the input array is deleted, an exception is cleared. The result holds a
-- local reference.
pub called : JavaArray → Transfer → Option (List ℕ) × Transfer
called threw t = (none, t)
called null_array t = (none, t)
called (array bytes) t = (some bytes, record t { local_refs = t.local_refs + 1 })

-- Both functions up to the result of Java: `method` is what the method gives for the input array.
pub call_java :
    Option ℕ
    → Option (List ℕ → JavaArray)
    → TransferAnswers
    → List ℕ
    → Transfer
    → Option (List ℕ) × Transfer
call_java none method a input t = (none, t)
call_java (some object) none a input t = (none, t)
call_java (some object) (some method) a input t =
    if not a.has_env
    then (none, t)
    else if not a.new_byte_array
    then (none, record t { pending = true })
    else called (method input) (record t { local_refs = t.local_refs + 1 - 1 })

-- `compress` after Java has given the bytes, and CBB_reserve.
pub copy_compressed : TransferAnswers → List ℕ → Option (List ℕ) → Transfer → Option (ℕ × Transfer)
copy_compressed a bytes none t = some (0, t)
copy_compressed a bytes (some reserved) t =
    if not a.get_elements
    then some (0, record t { pending = true })
    else write_at reserved 0 bytes >>= λ filled. some (
        if a.did_write
        then (
          1,
          record t { written = t.written ++ take (length bytes) filled; pinned = t.pinned + 1 - 1 },
        )
        else (0, record t { pinned = t.pinned + 1 - 1 }))

pub reserve_and_copy : TransferAnswers → Option (List ℕ) × Transfer → Option (ℕ × Transfer)
reserve_and_copy a (none, t) = some (0, t)
reserve_and_copy a (some bytes, t) = copy_compressed a bytes (a.reserve (length bytes)) t

-- `compress`.
pub compress :
    Option ℕ
    → Option (List ℕ → JavaArray)
    → TransferAnswers
    → List ℕ
    → Transfer
    → Option (ℕ × Transfer)
compress object method a input t = reserve_and_copy a (call_java object method a input t)

-- `decompress` after GetByteArrayElements, with the memory of CRYPTO_BUFFER_alloc.
pub fill_buffer : List ℕ → Option (List ℕ) → Transfer → Option (ℕ × Transfer)
fill_buffer bytes none t = some (0, record t { buffer = none; pinned = t.pinned - 1 })
fill_buffer bytes (some memory) t = write_at memory 0 bytes >>= λ filled.
    some (1, record t { buffer = some filled; pinned = t.pinned - 1 })

pub alloc_and_copy : TransferAnswers → ℕ → Option (List ℕ) × Transfer → Option (ℕ × Transfer)
alloc_and_copy a uncompressed_len (none, t) = some (0, t)
alloc_and_copy a uncompressed_len (some bytes, t) =
    if not (uncompressed_len == length bytes)
    then some (0, t)
    else if not a.get_elements
    then some (0, record t { pending = true })
    else fill_buffer bytes (a.alloc uncompressed_len) (record t { pinned = t.pinned + 1 })

-- `decompress`. The method also gets the length that is expected.
pub decompress :
    Option ℕ
    → Option (ℕ → List ℕ → JavaArray)
    → TransferAnswers
    → ℕ
    → List ℕ
    → Transfer
    → Option (ℕ × Transfer)
decompress object none a uncompressed_len input t = some (0, t)
decompress object (some method) a uncompressed_len input t =
    alloc_and_copy a uncompressed_len (call_java object (some (method uncompressed_len)) a input t)

-- The methods of the algorithms, by their slots; `none` is NULL.
pub record Methods : Type 0 where
  pub compress_method : Slot → Option (List ℕ → JavaArray)
  pub decompress_method : Slot → Option (ℕ → List ℕ → JavaArray)

-- The functions that BoringSSL gets.
pub zlib_compress_java :
    CallbackContext → Methods → TransferAnswers → List ℕ → Transfer → Option (ℕ × Transfer)
zlib_compress_java c m = compress (c.slot zlib) (m.compress_method zlib)

pub zlib_decompress_java :
    CallbackContext → Methods → TransferAnswers → ℕ → List ℕ → Transfer → Option (ℕ × Transfer)
zlib_decompress_java c m = decompress (c.slot zlib) (m.decompress_method zlib)

pub brotli_compress_java :
    CallbackContext → Methods → TransferAnswers → List ℕ → Transfer → Option (ℕ × Transfer)
brotli_compress_java c m = compress (c.slot brotli) (m.compress_method brotli)

pub brotli_decompress_java :
    CallbackContext → Methods → TransferAnswers → ℕ → List ℕ → Transfer → Option (ℕ × Transfer)
brotli_decompress_java c m = decompress (c.slot brotli) (m.decompress_method brotli)

pub zstd_compress_java :
    CallbackContext → Methods → TransferAnswers → List ℕ → Transfer → Option (ℕ × Transfer)
zstd_compress_java c m = compress (c.slot zstd) (m.compress_method zstd)

pub zstd_decompress_java :
    CallbackContext → Methods → TransferAnswers → ℕ → List ℕ → Transfer → Option (ℕ × Transfer)
zstd_decompress_java c m = decompress (c.slot zstd) (m.decompress_method zstd)
