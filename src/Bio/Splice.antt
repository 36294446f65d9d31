-- ===== src/Bio/Splice.antt =====
-- What copying bytes behind the queue of a ring does to the bytes that it holds.
use netty_tcnative.Base.{
  ℕ, ◌+◌, ◌-◌, ◌≤◌, min, ◌≡◌, sym, ap, ap₂, ◌∙◌, List, ◌++◌, length, take, drop, arith, length-take,
  length-drop, length-append, take-append-drop, take-take, take-append_le, take-append_add,
  take-all, drop-append_le, drop-append_add, drop-drop, drop-take, append_assoc,
}
use netty_tcnative.Bio.Ring.{unrolled-wrapped}

-- The queue after `ys` was written behind its last byte, before the end of the buffer.
pub contents-splice :
    (q ys zs : List ℕ) (off len : ℕ)
    → off + len ≤ length q
    → take (len + length ys) (drop off (take (off + len) q ++ (ys ++ zs)))
      ≡ take len (drop off q) ++ ys
contents-splice q ys zs off len h =
    ap (take (len + length ys)) (
      drop-append_le off (take (off + len) q) (ys ++ zs) (omega (arith, length-take (off + len) q)))
    ∙ take-append_add (len + length ys) front (ys ++ zs) (omega (arith, front-length))
    ∙ ap₂ ◌++◌ front-contents (
        ap (λ k. take k (ys ++ zs)) {x = len + length ys - length front} {y = length ys}
          (omega (arith, front-length))
        ∙ take-append_le (length ys) ys zs (omega arith)
        ∙ take-all (length ys) ys (omega arith))
  where
    front : List ℕ
    front = drop off (take (off + len) q)

    front-contents : front ≡ take len (drop off q)
    front-contents =
        drop-take off (off + len) q
        ∙ ap (λ k. take k (drop off q)) {x = off + len - off} (omega arith)

    front-length : length front ≡ len
    front-length =
        omega (arith, ap length front-contents, length-take len (drop off q), length-drop off q)

-- Two cuts of the input make one.
pub take-split : (xs : List ℕ) (m n : ℕ) → m ≤ n → take m xs ++ take (n - m) (drop m xs) ≡ take n xs
take-split xs m n h =
    ap₂ ◌++◌ (ap (λ k. take k xs) {x = m} {y = min m n} (omega arith) ∙ sym (take-take m n xs))
      (sym (drop-take m n xs))
    ∙ take-append-drop m (take n xs)

-- The queue after a write that goes round the end: `ys` up to it, `zs` from the start on.
pub contents-wrap :
    (q ys zs : List ℕ) (off len : ℕ)
    → off + len + length ys ≡ length q
    → length zs ≤ off
    → let once : List ℕ = take (off + len) q ++ (ys ++ drop (off + len + length ys) q) in
      let twice : List ℕ = zs ++ drop (length zs) once in
      take (len + (length ys + length zs)) (drop off (twice ++ twice))
      ≡ take len (drop off q) ++ (ys ++ zs)
contents-wrap q ys zs off len e h =
    unrolled-wrapped twice off (len + (length ys + length zs)) (omega (arith, twice-length))
      (omega (arith, twice-length))
    ∙ ap₂ ◌++◌ tail-part head-part
    ∙ append_assoc (take len (drop off q)) ys zs
  where
    once : List ℕ
    once = take (off + len) q ++ (ys ++ drop (off + len + length ys) q)

    twice : List ℕ
    twice = zs ++ drop (length zs) once

    once-length : length once ≡ length q
    once-length = omega (
      arith,
      length-append (take (off + len) q) (ys ++ drop (off + len + length ys) q),
      length-append ys (drop (off + len + length ys) q),
      length-take (off + len) q,
      length-drop (off + len + length ys) q,
    )

    twice-length : length twice ≡ length q
    twice-length =
        omega (
          arith,
          length-append zs (drop (length zs) once),
          length-drop (length zs) once,
          once-length,
        )

    tail-part : drop off twice ≡ take len (drop off q) ++ ys
    tail-part =
        drop-append_add off zs (drop (length zs) once) h
        ∙ drop-drop (off - length zs) (length zs) once
        ∙ ap (λ k. drop k once) {x = length zs + (off - length zs)} {y = off} (omega arith)
        ∙ sym (
            take-all (len + length ys) (drop off once)
              (omega (arith, length-drop off once, once-length)))
        ∙ contents-splice q ys (drop (off + len + length ys) q) off len (omega arith)

    head-part : take (len + (length ys + length zs) - (length twice - off)) twice ≡ zs
    head-part =
        ap (λ k. take k twice) {y = length zs} (omega (arith, twice-length))
        ∙ take-append_le (length zs) zs (drop (length zs) once) (omega arith)
        ∙ take-all (length zs) zs (omega arith)
