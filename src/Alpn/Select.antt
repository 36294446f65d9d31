-- ===== src/Alpn/Select.antt =====
-- `select_next_proto` on two well-formed protocol lists.
use netty_tcnative.Base.{
  ℕ, zero, suc, ◌+◌, ◌<◌, ◌≢◌, ◌≡◌, refl, ap, ◌∙◌, Option, none, some, List, [], ◌∷◌, ◌++◌, length,
  arith, length-append, drop-length-append, Bool-cases, inl, inr, lt→ltb,
}
use netty_tcnative.Alpn.{Selection, selected, after_scan, scan, select_loop, select_next_proto}
use netty_tcnative.Alpn.Wire.{encode, payload, offers, first_common, length-encode}
use netty_tcnative.Alpn.Match.{scan-offered, scan-absent}

module _ (theirs : List (List ℕ)) (supported_len failure_behavior : ℕ) where
  -- One round, at the name `p` of the own list, before the end that `i` would see.
  select_loop-encode :
      (fuel i : ℕ) (p : List ℕ) (ps : List (List ℕ)) (last : Option (List ℕ × ℕ))
      → i < supported_len
      → select_loop
          (suc fuel)
          i
          supported_len
          (encode (p ∷ ps))
          last
          (encode theirs)
          failure_behavior
        ≡ after_scan (scan (length (encode theirs)) (length p) (p ++ encode ps) (encode theirs)) (
            select_loop fuel
              (i + length p)
              supported_len
              (encode ps)
              (some (p ++ encode ps, length p))
              (encode theirs)
              failure_behavior)
  unfolding select_loop
  select_loop-encode fuel i p ps last more =
      rw (lt→ltb i supported_len more, drop-length-append p (encode ps)) refl

  select_loop-common :
      (fuel i : ℕ) (ours : List (List ℕ)) (last : Option (List ℕ × ℕ)) (p : List ℕ)
      → length (encode ours) < fuel
      → i + payload ours < supported_len
      → first_common ours theirs ≡ some p
      → (rest : List ℕ) × (select_loop fuel i supported_len
            (encode ours)
            last
            (encode theirs)
            failure_behavior
          ≡ selected (p ++ rest) (length p))
  unfolding after_scan
  select_loop-common zero i ours last p enough more h = absurd (omega arith)
  select_loop-common (suc fuel) i [] last p enough more h = absurd (ground arith)
  select_loop-common (suc fuel) i (q ∷ qs) last p enough more h =
      elim (Bool-cases (offers theirs q)) [
        | inl hit ↦
            let same : q ≡ p = ground arith in
            let s = scan-offered (length (encode theirs)) q (encode qs) theirs (omega arith) hit in
            (
              s.0,
              select_loop-encode fuel i q qs last (omega arith)
                  ∙ rw s.1 (ap (λ r. selected (r ++ s.0) (length r)) same),
            )
        | inr miss ↦
            let ih =
              select_loop-common fuel (i + length q) qs (some (q ++ encode qs, length q)) p
                (omega (arith, length-append q (encode qs))) (omega arith) (rw miss at h) in
            (
              ih.0,
              select_loop-encode fuel i q qs last (omega arith)
                  ∙ rw
                      (scan-absent (length (encode theirs)) q (encode qs) theirs (omega arith) miss)
                      ih.1,
            )
      ]

  select_loop-no_common :
      (fuel i : ℕ) (ours : List (List ℕ)) (last : Option (List ℕ × ℕ))
      → length (encode ours) < fuel
      → i + payload ours < supported_len
      → first_common ours theirs ≡ none
      → select_loop fuel i supported_len (encode ours) last (encode theirs) failure_behavior
        ≡ Selection.overread
  unfolding after_scan select_loop
  select_loop-no_common zero i ours last enough more h = absurd (omega arith)
  select_loop-no_common (suc fuel) i [] last enough more h =
      rw (lt→ltb i supported_len (omega arith)) refl
  select_loop-no_common (suc fuel) i (q ∷ qs) last enough more h =
      elim (Bool-cases (offers theirs q)) [
        | inl hit ↦ absurd (ground arith)
        | inr miss ↦
            select_loop-encode fuel i q qs last (omega arith)
            ∙ rw (scan-absent (length (encode theirs)) q (encode qs) theirs (omega arith) miss) (
                select_loop-no_common fuel (i + length q) qs (some (q ++ encode qs, length q))
                  (omega (arith, length-append q (encode qs))) (omega arith) (rw miss at h))
      ]

-- When the two well-formed lists have a protocol in common, the first one of the own list that the
-- peer offers is selected: `out` points to its name in memory and `outlen` is its length. This
-- holds for either failure behaviour, and nothing is read past the end of a list.
pub select_next_proto-common :
    (ours theirs : List (List ℕ)) (failure_behavior : ℕ) (p : List ℕ)
    → first_common ours theirs ≡ some p
    → (rest : List ℕ) × (select_next_proto
          (encode theirs)
          (encode ours)
          (length (encode ours))
          failure_behavior
        ≡ selected (p ++ rest) (length p))
unfolding select_next_proto
select_next_proto-common [] theirs failure_behavior p h = absurd (ground arith)
select_next_proto-common (q ∷ qs) theirs failure_behavior p h =
    select_loop-common theirs (length (encode (q ∷ qs))) failure_behavior
      (suc (length (encode (q ∷ qs)))) 0 (q ∷ qs) none p (omega arith)
      (omega (arith, length-encode (q ∷ qs))) h

-- When the own list is not empty and the two well-formed lists have no protocol in common, the outer
-- loop runs past the end of the own list and reads outside of it, whatever the failure behaviour:
-- `i` is not moved on for the length bytes. The fallback to the last protocol is never reached.
pub select_next_proto-no_common :
    (ours theirs : List (List ℕ)) (failure_behavior : ℕ)
    → ours ≢ []
    → first_common ours theirs ≡ none
    → select_next_proto (encode theirs) (encode ours) (length (encode ours)) failure_behavior
      ≡ Selection.overread
unfolding select_next_proto
select_next_proto-no_common [] theirs failure_behavior some_own h = absurd (some_own refl)
select_next_proto-no_common (q ∷ qs) theirs failure_behavior some_own h =
    select_loop-no_common theirs (length (encode (q ∷ qs))) failure_behavior
      (suc (length (encode (q ∷ qs)))) 0 (q ∷ qs) none (omega arith)
      (omega (arith, length-encode (q ∷ qs))) h
