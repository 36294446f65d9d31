-- ===== src/Compression/RoundTrip.antt =====
-- Compressing a certificate and decompressing it again.
use netty_tcnative.Base.{
  ℕ, ◌+◌, ◌-◌, ◌≡◌, refl, List, ◌++◌, true, Option, some, length, take, take-all, arith, ==_iff,
  ◌==◌,
}
use netty_tcnative.Callbacks.{Slot, zlib, brotli, zstd, CallbackContext}
use netty_tcnative.Compression.{
  JavaArray, array, Transfer, TransferAnswers, called, call_java, copy_compressed, reserve_and_copy,
  compress, fill_buffer, alloc_and_copy, decompress, Methods, zlib_compress_java,
  zlib_decompress_java, brotli_compress_java, brotli_decompress_java, zstd_compress_java,
  zstd_decompress_java,
}
use netty_tcnative.Compression.Exact.{write_at-whole}

-- Nothing fails, and memory has the size asked for.
pub record IsWilling (a : TransferAnswers) : Type 0 where
  pub env : a.has_env ≡ true
  pub arrays : a.new_byte_array ≡ true
  pub elements : a.get_elements ≡ true
  pub wrote : a.did_write ≡ true
  pub reserves : (n : ℕ) → (m : List ℕ) × (a.reserve n ≡ some m) × (length m ≡ n)
  pub allocs : (n : ℕ) → (m : List ℕ) × (a.alloc n ≡ some m) × (length m ≡ n)

-- The algorithm of a slot packs the input, and unpacks what it packed.
pub record Packs (c : CallbackContext) (m : Methods) (s : Slot) (input packed : List ℕ)
    : Type 0 where
  pub object : ℕ
  pub pack : List ℕ → JavaArray
  pub unpack : ℕ → List ℕ → JavaArray
  pub has_object : c.slot s ≡ some object
  pub has_pack : m.compress_method s ≡ some pack
  pub has_unpack : m.decompress_method s ≡ some unpack
  pub packs : pack input ≡ array packed
  pub unpacks : unpack (length input) packed ≡ array input

call_java-array :
    (v : ℕ) (f : List ℕ → JavaArray) (a : TransferAnswers) (input bytes : List ℕ) (t : Transfer)
    → IsWilling a
    → f input ≡ array bytes
    → (u : Transfer) × (call_java (some v) (some f) a input t ≡ (some bytes, u))
      × (u.written ≡ t.written)
unfolding call_java called
call_java-array v f a input bytes t w e =
    (record t { local_refs = t.local_refs + 1 - 1 + 1 }, simp (w.env, w.arrays, e), refl)

compress-packs :
    (v : ℕ) (f : List ℕ → JavaArray) (a : TransferAnswers) (input bytes : List ℕ) (t : Transfer)
    → IsWilling a
    → f input ≡ array bytes
    → (t' : Transfer) × (compress (some v) (some f) a input t ≡ some (1, t'))
      × (t'.written ≡ t.written ++ bytes)
unfolding compress reserve_and_copy copy_compressed
compress-packs v f a input bytes t w e =
    let c = call_java-array v f a input bytes t w e in
    let m = w.reserves (length bytes) in
    let filled = write_at-whole m.0 bytes m.2 in
    (
      record c.0 {
        written = (c.0).written ++ take (length bytes) bytes;
        pinned = (c.0).pinned + 1 - 1;
      },
      simp (c.1, m.1, w.elements, filled, w.wrote),
      simp (c.2, take-all (length bytes) bytes (omega arith)),
    )

decompress-unpacks :
    (v : ℕ) (f : ℕ → List ℕ → JavaArray) (a : TransferAnswers) (input packed : List ℕ)
    (t : Transfer)
    → IsWilling a
    → f (length input) packed ≡ array input
    → (t' : Transfer) × (decompress (some v) (some f) a (length input) packed t ≡ some (1, t'))
      × (t'.buffer ≡ some input)
unfolding decompress alloc_and_copy fill_buffer
decompress-unpacks v f a input packed t w e =
    let c = call_java-array v (f (length input)) a packed input t w e in
    let m = w.allocs (length input) in
    let filled = write_at-whole m.0 input m.2 in
    let same : (length input == length input) ≡ true =
      (==_iff (length input) (length input)).1 refl in
    (
      record c.0 { buffer = some input; pinned = (c.0).pinned + 1 - 1 },
      simp (c.1, same, w.elements, m.1, filled),
      refl,
    )

-- A compression function appends `packed`, and its decompression function gives back the input.
abbrev pub Restores :
    (TransferAnswers → List ℕ → Transfer → Option (ℕ × Transfer))
    → (TransferAnswers → ℕ → List ℕ → Transfer → Option (ℕ × Transfer))
    → TransferAnswers
    → List ℕ
    → List ℕ
    → Transfer
    → Type 0
Restores pack unpack a input packed t =
    (t1 : Transfer) × (t2 : Transfer) × (pack a input t ≡ some (1, t1))
    × (t1.written ≡ t.written ++ packed)
    × (unpack a (length input) packed t ≡ some (1, t2))
    × (t2.buffer ≡ some input)

slot-Restores :
    (c : CallbackContext) (m : Methods) (s : Slot) (a : TransferAnswers) (input packed : List ℕ)
    (t : Transfer)
    → IsWilling a
    → Packs c m s input packed
    → Restores
        (compress (c.slot s) (m.compress_method s))
        (decompress (c.slot s) (m.decompress_method s))
        a
        input
        packed
        t
slot-Restores c m s a input packed t w p =
    let d = compress-packs p.object p.pack a input packed t w p.packs in
    let u = decompress-unpacks p.object p.unpack a input packed t w p.unpacks in
    (d.0, u.0, rw (p.has_object, p.has_pack) d.1, d.2, rw (p.has_object, p.has_unpack) u.1, u.2)

-- When nothing fails, the compression function of each algorithm appends what the Java object in its
-- slot gives for a certificate, and if that object unpacks what it packed, the decompression function of
-- the same algorithm restores the certificate from it.
pub java-round_trip :
    (c : CallbackContext) (m : Methods) (a : TransferAnswers)
    (input by_zlib by_brotli by_zstd : List ℕ) (t : Transfer)
    → IsWilling a
    → Packs c m zlib input by_zlib
    → Packs c m brotli input by_brotli
    → Packs c m zstd input by_zstd
    → Restores (zlib_compress_java c m) (zlib_decompress_java c m) a input by_zlib t
      × Restores (brotli_compress_java c m) (brotli_decompress_java c m) a input by_brotli t
      × Restores (zstd_compress_java c m) (zstd_decompress_java c m) a input by_zstd t
unfolding zlib_compress_java zlib_decompress_java brotli_compress_java brotli_decompress_java
    zstd_compress_java zstd_decompress_java
java-round_trip c m a input by_zlib by_brotli by_zstd t w p q r = (
  slot-Restores c m zlib a input by_zlib t w p,
  slot-Restores c m brotli a input by_brotli t w q,
  slot-Restores c m zstd a input by_zstd t w r,
)
