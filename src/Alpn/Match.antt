-- ===== src/Alpn/Match.antt =====
-- The inner loop of `select_next_proto` on a well-formed list of the peer.
use netty_tcnative.Base.{
  ℕ, zero, suc, ◌≤◌, ◌≡◌, refl, sym, ap, ◌∙◌, true, false, List, [], ◌∷◌, ◌++◌, length, eq_bytes,
  eq_bytes_sound, ◌==◌, if◌then◌else◌, arith, length-append, take-length-append, drop-length-append,
  Bool-cases, inl, inr, le→leb, le→not-ltb, ==_iff,
}
use netty_tcnative.Alpn.{found, absent, scan}
use netty_tcnative.Alpn.Wire.{encode, offers}

-- One round, at the name `q` of the peer.
scan-encode :
    (fuel : ℕ) (p tail q : List ℕ) (qs : List (List ℕ))
    → scan (suc fuel) (length p) (p ++ tail) (encode (q ∷ qs)) ≡ (
        if eq_bytes p q
        then found (q ++ encode qs) (length q)
        else scan fuel (length p) (p ++ tail) (encode qs))
unfolding scan
scan-encode fuel p tail q qs =
    rw
      (
        drop-length-append q (encode qs),
        take-length-append q (encode qs),
        le→leb (length q) (length (q ++ encode qs)) (omega (arith, length-append q (encode qs))),
      )
      (elim (Bool-cases (length p == length q)) [
        | inl same ↦
            let e : length p ≡ length q = (==_iff _ _).0 same in
            rw
              (
                same,
                ← e,
                take-length-append p tail,
                le→not-ltb (length (p ++ tail)) (length p) (omega (arith, length-append p tail)),
              )
              refl
        | inr other ↦ rw other (rw (differ other) refl)
      ])
  where
    differ : (length p == length q) ≡ false → eq_bytes p q ≡ false
    differ other = elim (Bool-cases (eq_bytes p q)) [
      | inl h ↦ absurd (ground (arith, ap length (eq_bytes_sound p q h)))
      | inr h ↦ h
    ]

-- A name that the peer offers is found, with the peer's bytes from there on.
pub scan-offered :
    (fuel : ℕ) (p tail : List ℕ) (theirs : List (List ℕ))
    → length (encode theirs) ≤ fuel
    → offers theirs p ≡ true
    → (rest : List ℕ) × (scan fuel (length p) (p ++ tail) (encode theirs)
        ≡ found (p ++ rest) (length p))
scan-offered fuel p tail [] enough h = absurd (ground arith)
scan-offered zero p tail (q ∷ qs) enough h = absurd (omega arith)
scan-offered (suc fuel) p tail (q ∷ qs) enough h = elim (Bool-cases (eq_bytes p q)) [
  | inl hit ↦ (
    encode qs,
    scan-encode fuel p tail q qs
        ∙ rw hit (ap (λ r. found (r ++ encode qs) (length r)) (sym (eq_bytes_sound p q hit))),
  )
  | inr miss ↦
      let ih =
        scan-offered fuel p tail qs (omega (arith, length-append q (encode qs))) (rw miss at h) in
      (ih.0, scan-encode fuel p tail q qs ∙ rw miss ih.1)
]

-- A name that the peer does not offer is not found, and no byte past an end is read.
pub scan-absent :
    (fuel : ℕ) (p tail : List ℕ) (theirs : List (List ℕ))
    → length (encode theirs) ≤ fuel
    → offers theirs p ≡ false
    → scan fuel (length p) (p ++ tail) (encode theirs) ≡ absent
unfolding scan
scan-absent fuel p tail [] enough h = refl
scan-absent zero p tail (q ∷ qs) enough h = absurd (omega arith)
scan-absent (suc fuel) p tail (q ∷ qs) enough h = elim (Bool-cases (eq_bytes p q)) [
  | inl hit ↦ absurd (ground arith)
  | inr miss ↦
      scan-encode fuel p tail q qs
      ∙ rw miss
          (scan-absent fuel p tail qs (omega (arith, length-append q (encode qs))) (rw miss at h))
]
