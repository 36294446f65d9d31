-- ===== src/Alpn/Totality.antt =====
-- `select_next_proto` on any bytes at all.
use netty_tcnative.Base.{
  ℕ, zero, suc, ◌+◌, ◌≤◌, ◌<◌, ◌≢◌, ◌≡◌, refl, sym, ap, ◌∙◌, ◌&&◌, Option, none, some, List, [],
  ◌∷◌, ◌++◌, length, take, drop, ltb, leb, ◌==◌, arith, length-drop, Bool-cases, inl, inr,
  take-append-drop, append_assoc, eq_bytes,
}
use netty_tcnative.Alpn.{
  Scan, found, absent, Selection, selected, noack, after_scan, scan, select_loop, select_next_proto,
  fallback, no_advertise,
}

scan-ends :
    (fuel target : ℕ) (supported p : List ℕ)
    → length p ≤ fuel
    → scan fuel target supported p ≢ Scan.exhausted
unfolding scan
scan-ends fuel target supported [] enough e = cc
scan-ends zero target supported (proto_len ∷ proto) enough e = omega arith
scan-ends (suc fuel) target supported (proto_len ∷ proto) enough e =
    ground
      (arith, length-drop proto_len proto, scan-ends fuel target supported (drop proto_len proto))

-- What a scan finds is a name of `target` bytes with its length byte, somewhere in the list `p`.
abbrev FoundIn : List ℕ → ℕ → Scan → Type 0
FoundIn p target (found out n) =
    (before : List ℕ) × (p ≡ before ++ (n ∷ out)) × (n ≤ length out) × (n ≡ target)
FoundIn p target absent = Unit {0}
FoundIn p target Scan.overread = Unit {0}
FoundIn p target Scan.exhausted = Unit {0}

FoundIn-later :
    (k target : ℕ) (proto : List ℕ) (s : Scan)
    → FoundIn (drop k proto) target s
    → FoundIn (k ∷ proto) target s
FoundIn-later k target proto (found out n) h = (
  k ∷ (take k proto ++ h.0),
  ap (◌∷◌ k) (
      sym (take-append-drop k proto)
      ∙ ap (◌++◌ (take k proto)) h.1
      ∙ sym (append_assoc (take k proto) h.0 (n ∷ out))),
  h.2,
  h.3,
)
FoundIn-later k target proto absent h = tt
FoundIn-later k target proto Scan.overread h = tt
FoundIn-later k target proto Scan.exhausted h = tt

scan-FoundIn :
    (fuel target : ℕ) (supported p : List ℕ) → FoundIn p target (scan fuel target supported p)
unfolding scan
scan-FoundIn fuel target supported [] = tt
scan-FoundIn zero target supported (k ∷ proto) = tt
scan-FoundIn (suc fuel) target supported (k ∷ proto) =
    let later : FoundIn (k ∷ proto) target (scan fuel target supported (drop k proto)) =
      FoundIn-later k target proto (scan fuel target supported (drop k proto))
        (scan-FoundIn fuel target supported (drop k proto)) in
    elim (Bool-cases (leb k (length proto) && target == k)) [
      | inr other ↦ rw other later
      | inl fits ↦ elim (Bool-cases (ltb (length supported) k)) [
        | inl over ↦ rw (fits, over) tt
        | inr enough ↦ elim (Bool-cases (eq_bytes (take k supported) (take k proto))) [
          | inl hit ↦ rw (fits, enough, hit) ([], refl, ground arith, ground arith)
          | inr miss ↦ rw (fits, enough, miss) later
        ]
      ]
    ]

-- What a selection hands out lies in the peer's list, if there is no fallback.
abbrev pub SelectedIn : List ℕ → Selection → Type 0
SelectedIn input (selected out n) =
    (before : List ℕ) × (input ≡ before ++ (n ∷ out)) × (n ≤ length out)
SelectedIn input noack = Unit {0}
SelectedIn input Selection.overread = Unit {0}
SelectedIn input Selection.exhausted = Unit {0}

after_scan-SelectedIn :
    (input : List ℕ) (target : ℕ) (s : Scan) (next : Selection)
    → FoundIn input target s
    → SelectedIn input next
    → SelectedIn input (after_scan s next)
unfolding after_scan
after_scan-SelectedIn input target (found out n) next f h = (f.0, f.1, f.2)
after_scan-SelectedIn input target absent next f h = h
after_scan-SelectedIn input target Scan.overread next f h = tt
after_scan-SelectedIn input target Scan.exhausted next f h = tt

fallback-SelectedIn :
    (input : List ℕ) (last : Option (List ℕ × ℕ)) → SelectedIn input (fallback no_advertise last)
unfolding fallback
fallback-SelectedIn input none = tt
fallback-SelectedIn input (some (l, n)) = tt

select_loop-SelectedIn :
    (fuel i supported_len : ℕ) (supported : List ℕ) (last : Option (List ℕ × ℕ)) (input : List ℕ)
    → SelectedIn input (select_loop fuel i supported_len supported last input no_advertise)
unfolding select_loop
select_loop-SelectedIn zero i len supported last input = tt
select_loop-SelectedIn (suc fuel) i len [] last input = elim (Bool-cases (ltb i len)) [
  | inl more ↦ rw more tt
  | inr done ↦ rw done (fallback-SelectedIn input last)
]
select_loop-SelectedIn (suc fuel) i len (target ∷ supported) last input =
    elim (Bool-cases (ltb i len)) [
      | inl more ↦ rw more (
          after_scan-SelectedIn input target (scan (length input) target supported input) _
            (scan-FoundIn (length input) target supported input)
            (select_loop-SelectedIn fuel (i + target) len (drop target supported)
              (some (supported, target)) input))
      | inr done ↦ rw done (fallback-SelectedIn input last)
    ]

-- For any bytes of the peer, any own list and any length of it, with the failure behaviour 0: a
-- protocol that is selected is a name of the peer's list, which has its length byte before it and
-- lies within the list.
pub select_next_proto-SelectedIn :
    (input supported : List ℕ) (supported_len : ℕ)
    → SelectedIn input (select_next_proto input supported supported_len no_advertise)
unfolding select_next_proto
select_next_proto-SelectedIn input supported supported_len =
    select_loop-SelectedIn (suc (length supported)) 0 supported_len supported none input

after_scan-ends :
    (s : Scan) (next : Selection)
    → s ≢ Scan.exhausted
    → next ≢ Selection.exhausted
    → after_scan s next ≢ Selection.exhausted
unfolding after_scan
after_scan-ends (found out n) next f h e = cc
after_scan-ends absent next f h e = h e
after_scan-ends Scan.overread next f h e = cc
after_scan-ends Scan.exhausted next f h e = f refl

fallback-ends :
    (failure_behavior : ℕ) (last : Option (List ℕ × ℕ))
    → fallback failure_behavior last ≢ Selection.exhausted
unfolding fallback
fallback-ends failure_behavior none e = cc
fallback-ends failure_behavior (some (l, n)) e = ground arith

select_loop-ends :
    (fuel i len : ℕ) (supported : List ℕ) (last : Option (List ℕ × ℕ)) (input : List ℕ)
    (failure_behavior : ℕ)
    → length supported < fuel
    → select_loop fuel i len supported last input failure_behavior ≢ Selection.exhausted
unfolding select_loop
select_loop-ends zero i len supported last input fb enough = absurd (omega arith)
select_loop-ends (suc fuel) i len [] last input fb enough = elim (Bool-cases (ltb i len)) [
  | inl more ↦ rw more (λ e. cc)
  | inr done ↦ rw done (fallback-ends fb last)
]
select_loop-ends (suc fuel) i len (target ∷ supported) last input fb enough =
    elim (Bool-cases (ltb i len)) [
      | inl more ↦ rw more (
          after_scan-ends (scan (length input) target supported input) _
            (scan-ends (length input) target supported input (omega arith))
            (select_loop-ends fuel (i + target) len (drop target supported)
              (some (supported, target)) input fb (omega (arith, length-drop target supported))))
      | inr done ↦ rw done (fallback-ends fb last)
    ]

-- An own list in which no name is empty, as the loop goes through it. It may be longer than its length
-- says, and its last name may be cut off.
pub data HasNames : List ℕ → Type 0 where
  no_name : HasNames []
  name : (n : ℕ) (names : List ℕ) → HasNames (drop (suc n) names) → HasNames (suc n ∷ names)

-- The outer loop moves on by at least one byte of its length in each round.
select_loop-rounds :
    (fuel i len : ℕ) (supported : List ℕ) (last : Option (List ℕ × ℕ)) (input : List ℕ)
    (failure_behavior : ℕ)
    → HasNames supported
    → 1 ≤ fuel
    → suc len ≤ fuel + i
    → select_loop fuel i len supported last input failure_behavior ≢ Selection.exhausted
unfolding select_loop
select_loop-rounds zero i len supported last input fb h some_fuel enough = absurd (omega arith)
select_loop-rounds (suc fuel) i len [] last input fb h some_fuel enough =
    elim (Bool-cases (ltb i len)) [
      | inl more ↦ rw more (λ e. cc)
      | inr done ↦ rw done (fallback-ends fb last)
    ]
select_loop-rounds (suc fuel) i len _ last input fb (name n names h) some_fuel enough =
    elim (Bool-cases (ltb i len)) [
      | inl more ↦ rw more (
          after_scan-ends (scan (length input) (suc n) names input) _
            (scan-ends (length input) (suc n) names input (omega arith))
            (select_loop-rounds fuel (i + suc n) len (drop (suc n) names) (some (names, suc n))
              input fb h (ground arith) (omega arith)))
      | inr done ↦ rw done (fallback-ends fb last)
    ]

-- For an own list without empty names, whatever its length argument, the bytes of the peer and the
-- failure behaviour, the outer loop is left after at most `supported_len` rounds, however many bytes lie
-- behind the list, and the fuel of `select_next_proto` does not run out. (A run may end by a read outside
-- of the object, if that has fewer bytes.)
pub select_next_proto-ends :
    (input supported : List ℕ) (supported_len failure_behavior : ℕ)
    → HasNames supported
    → (select_loop (suc supported_len) 0 supported_len supported none input failure_behavior
        ≢ Selection.exhausted)
      × (select_next_proto input supported supported_len failure_behavior ≢ Selection.exhausted)
unfolding select_next_proto
select_next_proto-ends input supported supported_len failure_behavior h = (
  select_loop-rounds (suc supported_len) 0 supported_len supported none input failure_behavior h
      (omega arith) (omega arith),
  select_loop-ends (suc (length supported)) 0 supported_len supported none input failure_behavior
      (omega arith),
)
