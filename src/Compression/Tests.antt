-- ===== src/Compression/Tests.antt =====
-- The theorems on compression with a Java object that puts a byte in front of the certificate.
use netty_tcnative.Base.{
  ℕ, ◌≡◌, refl, List, [], ◌∷◌, true, false, Option, none, some, replicate, drop, length,
}
use netty_tcnative.Base.{arith, ap}
use netty_tcnative.Callbacks.{Slot, zlib, brotli, zstd, CallbackContext}
use netty_tcnative.Compression.{
  JavaArray, array, Transfer, TransferAnswers, compress, decompress, Methods, zlib_compress_java,
  zlib_decompress_java, brotli_compress_java, brotli_decompress_java, zstd_compress_java,
  zstd_decompress_java,
}
use netty_tcnative.Compression.Exact.{
  AreSized, Compresses, Decompresses, method_for, compress-decompress_exact,
}
use netty_tcnative.Compression.RoundTrip.{IsWilling, Packs, Restores, java-round_trip}
use netty_tcnative.Certificate.Password.Bounded.{length-replicate}

abbrev memory : ℕ → Option (List ℕ)
memory n = some (replicate n 0)

abbrev answers : TransferAnswers
answers = record {
  has_env = true;
  new_byte_array = true;
  get_elements = true;
  reserve = memory;
  did_write = true;
  alloc = memory;
}

abbrev start : Transfer
start = record { written = []; buffer = none; local_refs = 0; pinned = 0; pending = false }

-- A byte in front, and the rest.
abbrev pack : List ℕ → JavaArray
pack input = array (7 ∷ input)

abbrev unpack : ℕ → List ℕ → JavaArray
unpack len packed = array (drop 1 packed)

abbrev context : CallbackContext
context = record { slot = λ s. some 3; registered = λ s. true; global_refs = 0 }

abbrev methods : Methods
methods = record { compress_method = λ s. some pack; decompress_method = λ s. some unpack }

abbrev input : List ℕ
input = 1 ∷ 2 ∷ []

abbrev packed : List ℕ
packed = 7 ∷ input

abbrev size : Option (List ℕ) → ℕ
size none = 0
size (some m) = length m

memory-sized : (n : ℕ) (m : List ℕ) → memory n ≡ some m → length m ≡ n
memory-sized n m e = omega (arith, length-replicate n 0, ap size e)

answers-IsWilling : IsWilling answers
answers-IsWilling = record {
  env = refl;
  arrays = refl;
  elements = refl;
  wrote = refl;
  reserves = λ n. (replicate n 0, refl, length-replicate n 0);
  allocs = λ n. (replicate n 0, refl, length-replicate n 0);
}

methods-Packs : (s : Slot) → Packs context methods s input packed
methods-Packs s = record {
  object = 3;
  pack = pack;
  unpack = unpack;
  has_object = refl;
  has_pack = refl;
  has_unpack = refl;
  packs = refl;
  unpacks = refl;
}

compress-decompress_exact_example :
    Compresses (some 3) (some pack) input start (compress (some 3) (some pack) answers input start)
    × Decompresses
        (some 3)
        (method_for 1 (some unpack))
        1
        input
        start
        (decompress (some 3) (some unpack) answers 1 input start)
unfolding AreSized
compress-decompress_exact_example =
    compress-decompress_exact (some 3) (some pack) (some unpack) answers 1 input start
      (memory-sized, memory-sized)

java-round_trip_example :
    Restores
      (zlib_compress_java context methods)
      (zlib_decompress_java context methods)
      answers
      input
      packed
      start
    × Restores
        (brotli_compress_java context methods)
        (brotli_decompress_java context methods)
        answers
        input
        packed
        start
    × Restores
        (zstd_compress_java context methods)
        (zstd_decompress_java context methods)
        answers
        input
        packed
        start
java-round_trip_example =
    java-round_trip context methods answers input packed packed packed start answers-IsWilling
      (methods-Packs zlib) (methods-Packs brotli) (methods-Packs zstd)
