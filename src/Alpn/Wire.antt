-- ===== src/Alpn/Wire.antt =====
-- The wire format of a protocol list: each name behind a byte with its length.
use netty_tcnative.Base.{
  ℕ, ◌+◌, ◌≡◌, Bool, false, ◌||◌, Option, none, some, List, [], ◌∷◌, ◌++◌, length, eq_bytes,
  if◌then◌else◌, arith, length-append,
}

-- A list of protocol names as it is sent.
abbrev pub encode : List (List ℕ) → List ℕ
encode [] = []
encode (p ∷ ps) = length p ∷ (p ++ encode ps)

-- The sum of the lengths of the names.
abbrev pub payload : List (List ℕ) → ℕ
payload [] = 0
payload (p ∷ ps) = length p + payload ps

pub length-encode : (ps : List (List ℕ)) → length (encode ps) ≡ payload ps + length ps
length-encode [] = omega arith
length-encode (p ∷ ps) = omega (arith, length-append p (encode ps), length-encode ps)

abbrev pub offers : List (List ℕ) → List ℕ → Bool
offers [] p = false
offers (q ∷ qs) p = eq_bytes p q || offers qs p

-- The protocol that a server should pick: the first of its own list that the peer offers.
abbrev pub first_common : List (List ℕ) → List (List ℕ) → Option (List ℕ)
first_common [] theirs = none
first_common (p ∷ ps) theirs = if offers theirs p then some p else first_common ps theirs
