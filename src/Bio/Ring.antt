-- ===== src/Bio/Ring.antt =====
-- The internal buffer of a ByteBuffer BIO as a queue of bytes.
use netty_tcnative.Base.{
  ℕ, suc, ◌+◌, ◌-◌, ◌≤◌, ◌<◌, ◌≡◌, ap, ◌∙◌, sym, List, [], ◌∷◌, ◌++◌, length, take, drop, arith,
  length-take, length-drop, length-append, drop-append_add, drop-append_le, if◌then◌else◌, ◌==◌,
  take-append_le, take-append_add, drop-take, drop-drop,
}
use netty_tcnative.Bio.{ByteBufferBio, Memory, store}

-- The offset and the length stay within an internal buffer of the recorded size, below 2^31.
pub record IsValid (b : ByteBufferBio) : Type 0 where
  pub sized : length b.non_application_buffer ≡ b.non_application_buffer_size
  pub offset_in : b.non_application_buffer_offset ≤ b.non_application_buffer_size
  pub length_in : b.non_application_buffer_length ≤ b.non_application_buffer_size
  pub small : b.non_application_buffer_size < 2147483648

-- The bytes from the offset on, going round at the end.
abbrev pub unrolled : ByteBufferBio → List ℕ
unrolled b =
    drop b.non_application_buffer_offset (b.non_application_buffer ++ b.non_application_buffer)

-- The queued bytes, oldest first.
abbrev pub contents : ByteBufferBio → List ℕ
contents b = take b.non_application_buffer_length (unrolled b)

pub length-contents :
    (b : ByteBufferBio) → IsValid b → length (contents b) ≡ b.non_application_buffer_length
length-contents b v = omega (
  arith,
  length-take b.non_application_buffer_length (unrolled b),
  length-drop b.non_application_buffer_offset
      (b.non_application_buffer ++ b.non_application_buffer),
  length-append b.non_application_buffer b.non_application_buffer,
)

-- Two copies to adjacent addresses are one.
pub store-append :
    (m : Memory) (a : ℕ) (xs ys : List ℕ)
    → store (store m a xs) (a + length xs) ys ≡ store m a (xs ++ ys)
store-append m a [] ys = ap (λ k. store m k ys) {x = a + 0} (omega arith)
store-append m a (x ∷ xs) ys =
    ap (λ k. store (store m a (x ∷ xs)) k ys) {x = a + suc (length xs)} (omega arith)
    ∙ store-append (λ q. if q == a then x else m q) (suc a) xs ys

-- The first bytes of a queue that does not reach the end of the buffer.
pub unrolled-straight :
    (q : List ℕ) (off n : ℕ) → off + n ≤ length q → take n (drop off (q ++ q)) ≡ take n (drop off q)
unrolled-straight q off n h =
    ap (take n) (drop-append_le off q q (omega arith))
    ∙ take-append_le n (drop off q) q (omega (arith, length-drop off q))

-- The first bytes of a queue that goes round the end.
pub unrolled-wrapped :
    (q : List ℕ) (off n : ℕ)
    → off ≤ length q
    → length q ≤ off + n
    → take n (drop off (q ++ q)) ≡ drop off q ++ take (n - (length q - off)) q
unrolled-wrapped q off n h k =
    ap (take n) (drop-append_le off q q h)
    ∙ take-append_add n (drop off q) q (omega (arith, length-drop off q))
    ∙ ap (λ j. drop off q ++ take (n - j) q) (length-drop off q)

-- One turn round the buffer does not change what is read.
pub unrolled-turn :
    (q : List ℕ) (off n : ℕ)
    → off + n ≤ length q
    → take n (drop (length q + off) (q ++ q)) ≡ take n (drop off (q ++ q))
unrolled-turn q off n h =
    ap (take n)
      (drop-append_add (length q + off) q q (omega arith) ∙ ap (λ j. drop j q) (omega arith))
    ∙ sym (unrolled-straight q off n h)

-- Taking bytes off the front of the queue moves the offset.
pub contents-drop :
    (q : List ℕ) (off len n : ℕ)
    → drop n (take len (drop off (q ++ q))) ≡ take (len - n) (drop (off + n) (q ++ q))
contents-drop q off len n =
    drop-take n len (drop off (q ++ q)) ∙ ap (take (len - n)) (drop-drop n off (q ++ q))
