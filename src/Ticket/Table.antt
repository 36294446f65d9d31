-- ===== src/Ticket/Table.antt =====
-- The look-up in the table of ticket keys, by the name of a key.
use netty_tcnative.Base.{
  ℕ, suc, ◌≡◌, ◌≢◌, refl, ap, ◌∙◌, false, none, some, List, [], ◌∷◌, ◌++◌, arith, eq_bytes,
  eq_bytes_refl, eq_bytes_sound, Bool-cases, inl, inr, ◌==◌,
}
use netty_tcnative.Ticket.{TicketKey, find_from}

-- No key of the list has this name.
abbrev pub Unnamed : List ℕ → List TicketKey → Type 0
Unnamed name [] = Unit {0}
Unnamed name (k ∷ keys) = (k.key_name ≢ name) × Unnamed name keys

differs : (xs ys : List ℕ) → xs ≢ ys → eq_bytes xs ys ≡ false
differs xs ys h = elim (Bool-cases (eq_bytes xs ys)) [
  | inl same ↦ absurd (h (eq_bytes_sound xs ys same))
  | inr other ↦ other
]

pub find_from-absent :
    (i : ℕ) (keys : List TicketKey) (name : List ℕ)
    → Unnamed name keys
    → find_from i keys name ≡ none
unfolding find_from
find_from-absent i [] name h = refl
find_from-absent i (k ∷ keys) name (other, h) =
    rw (differs k.key_name name other) (find_from-absent (suc i) keys name h)

-- Keys of other names in front are passed over.
pub find_from-hit :
    (i : ℕ) (k : TicketKey) (older : List TicketKey)
    → find_from i (k ∷ older) k.key_name ≡ some (k, i == 0)
unfolding find_from
find_from-hit i k older = rw (eq_bytes_refl k.key_name) refl

not_first : (i : ℕ) → (suc i == 0) ≡ false
not_first i = ground arith

pub find_from-later :
    (i : ℕ) (newer : List TicketKey) (k : TicketKey) (older : List TicketKey)
    → Unnamed k.key_name newer
    → find_from (suc i) (newer ++ (k ∷ older)) k.key_name ≡ some (k, false)
unfolding find_from
find_from-later i [] k older h = find_from-hit (suc i) k older ∙ ap (λ b. some (k, b)) (not_first i)
find_from-later i (n ∷ newer) k older (other, h) =
    rw (differs n.key_name k.key_name other) (find_from-later (suc i) newer k older h)

pub find_from-behind :
    (n : TicketKey) (newer : List TicketKey) (k : TicketKey) (older : List TicketKey)
    → Unnamed k.key_name (n ∷ newer)
    → find_from 0 (n ∷ (newer ++ (k ∷ older))) k.key_name ≡ some (k, false)
unfolding find_from
find_from-behind n newer k older (other, h) =
    rw (differs n.key_name k.key_name other) (find_from-later 0 newer k older h)
