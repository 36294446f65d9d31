-- ===== src/Ticket/Parse.antt =====
-- The key array of `setSessionTicketKeys0` and the keys in it.
use netty_tcnative.Base.{
  ℕ, zero, suc, ◌+◌, ◌*◌, ◌/◌, ◌≤◌, ◌≡◌, refl, sym, ap, ap₂, ◌∙◌, Bool, true, false, some, List, [],
  ◌∷◌, ◌++◌, length, take, drop, arith, length-append, drop-drop, le→leb, read_at,
  take-length-append, drop-length-append, Bool-cases, inl, inr,
}
use netty_tcnative.Base.Jni.{Exception, Outcome, returned, thrown, null_pointer, exception}
use netty_tcnative.Ticket.{TicketKey, TicketState, read_key, read_keys, set_session_ticket_keys}

-- Key `i` of an array that holds it.
key_at : ℕ → List ℕ → TicketKey
key_at i b = record {
  key_name = take 16 (drop (48 * i) b);
  hmac_key = take 16 (drop (48 * i + 16) b);
  aes_key = take 16 (drop (48 * i + 32) b);
}

unfoldable keys_at : ℕ → ℕ → List ℕ → List TicketKey
keys_at zero i b = []
keys_at (suc n) i b = key_at i b ∷ keys_at n (suc i) b

read_at-in :
    (b : List ℕ) (off n : ℕ) → off + n ≤ length b → read_at b off n ≡ some (take n (drop off b))
read_at-in b off n h = rw (le→leb (off + n) (length b) h) refl

read_key-in : (b : List ℕ) (i : ℕ) → 48 * i + 48 ≤ length b → read_key b i ≡ some (key_at i b)
unfolding read_key key_at
read_key-in b i h =
    rw
      (
        read_at-in b (48 * i) 16 (omega arith),
        read_at-in b (48 * i + 16) 16 (omega arith),
        read_at-in b (48 * i + 32) 16 (omega arith),
      )
      refl

read_keys-in :
    (n i : ℕ) (b : List ℕ) → 48 * (i + n) ≤ length b → read_keys n i b ≡ some (keys_at n i b)
unfolding read_keys keys_at
read_keys-in zero i b h = refl
read_keys-in (suc n) i b h =
    rw (read_key-in b i (omega arith), read_keys-in n (suc i) b (omega arith)) refl

keys_at-next : (n i : ℕ) (b : List ℕ) → keys_at n (suc i) b ≡ keys_at n i (drop 48 b)
unfolding keys_at key_at
keys_at-next zero i b = refl
keys_at-next (suc n) i b = ap₂ ◌∷◌ same (keys_at-next n (suc i) b)
  where
    shift : (j : ℕ) → drop (48 * suc i + j) b ≡ drop (48 * i + j) (drop 48 b)
    shift j =
        ap (λ k. drop k b) {x = 48 * suc i + j} {y = 48 + (48 * i + j)} (omega arith)
        ∙ sym (drop-drop (48 * i + j) 48 b)

    shift_0 : drop (48 * suc i) b ≡ drop (48 * i) (drop 48 b)
    shift_0 =
        ap (λ k. drop k b) {x = 48 * suc i} {y = 48 + 48 * i} (omega arith)
        ∙ sym (drop-drop (48 * i) 48 b)

    same : key_at (suc i) b ≡ key_at i (drop 48 b)
    same j = record {
      key_name = take 16 (shift_0 j);
      hmac_key = take 16 (shift 16 j);
      aes_key = take 16 (shift 32 j);
    }

-- What `keys` of `setSessionTicketKeys0` holds for a list of keys: 48 bytes for each.
abbrev pub serialise : List TicketKey → List ℕ
serialise [] = []
serialise (k ∷ keys) = k.key_name ++ (k.hmac_key ++ (k.aes_key ++ serialise keys))

-- Three fields of 16 bytes, in each key.
abbrev pub AreSized : List TicketKey → Type 0
AreSized [] = Unit {0}
AreSized (k ∷ keys) =
    (length k.key_name ≡ 16) × (length k.hmac_key ≡ 16) × (length k.aes_key ≡ 16) × AreSized keys

cut : (n : ℕ) (xs ys : List ℕ) → length xs ≡ n → (take n (xs ++ ys) ≡ xs) × (drop n (xs ++ ys) ≡ ys)
cut n xs ys e = (
  ap (λ k. take k (xs ++ ys)) (sym e) ∙ take-length-append xs ys,
  ap (λ k. drop k (xs ++ ys)) (sym e) ∙ drop-length-append xs ys,
)

length-serialise :
    (keys : List TicketKey) → AreSized keys → length (serialise keys) ≡ 48 * length keys
length-serialise [] h = omega arith
length-serialise (k ∷ keys) (a, b, c, h) = omega (
  arith,
  length-serialise keys h,
  length-append k.key_name (k.hmac_key ++ (k.aes_key ++ serialise keys)),
  length-append k.hmac_key (k.aes_key ++ serialise keys),
  length-append k.aes_key (serialise keys),
)

keys_at-serialise :
    (keys : List TicketKey) → AreSized keys → keys_at (length keys) 0 (serialise keys) ≡ keys
unfolding keys_at key_at
keys_at-serialise [] h = refl
keys_at-serialise (k ∷ keys) (a, b, c, h) = ap₂ ◌∷◌ first (
    keys_at-next (length keys) 0 (serialise (k ∷ keys))
    ∙ ap (keys_at (length keys) 0) rest
    ∙ keys_at-serialise keys h)
  where
    all : List ℕ
    all = serialise (k ∷ keys)

    drop_1 : drop 16 all ≡ k.hmac_key ++ (k.aes_key ++ serialise keys)
    drop_1 = (cut 16 k.key_name (k.hmac_key ++ (k.aes_key ++ serialise keys)) a).1

    drop_2 : drop 32 all ≡ k.aes_key ++ serialise keys
    drop_2 =
        sym (drop-drop 16 16 all)
        ∙ ap (drop 16) drop_1
        ∙ (cut 16 k.hmac_key (k.aes_key ++ serialise keys) b).1

    rest : drop 48 all ≡ serialise keys
    rest = sym (drop-drop 16 32 all) ∙ ap (drop 16) drop_2 ∙ (cut 16 k.aes_key (serialise keys) c).1

    first : key_at 0 all ≡ k
    first i = record {
      key_name = (cut 16 k.key_name (k.hmac_key ++ (k.aes_key ++ serialise keys)) a).0 i;
      hmac_key = (ap (take 16) drop_1 ∙ (cut 16 k.hmac_key (k.aes_key ++ serialise keys) b).0) i;
      aes_key = (ap (take 16) drop_2 ∙ (cut 16 k.aes_key (serialise keys) c).0) i;
    }

-- When the allocations succeed, `setSessionTicketKeys0` on the bytes of any keys with fields of 16
-- bytes reads only inside of the array, installs exactly those keys in that order, registers the
-- callback and keeps the counters.
pub set_session_ticket_keys-serialise :
    (malloc : ℕ → Bool) (keys : List TicketKey) (c : TicketState)
    → AreSized keys
    → malloc (length keys) ≡ true
    → set_session_ticket_keys false malloc true (serialise keys) c
      ≡ some (returned tt, record c { ticket_keys = keys; callback_set = true })
unfolding set_session_ticket_keys
set_session_ticket_keys-serialise malloc keys c h room =
    rw
      (
        count,
        room,
        read_keys-in (length keys) 0 (serialise keys) (omega (arith, length-serialise keys h)),
        keys_at-serialise keys h,
      )
      refl
  where
    count : length (serialise keys) / 48 ≡ length keys
    count = omega (arith, length-serialise keys h)

-- For any array, of any length, and whatever allocation fails, `setSessionTicketKeys0` reads only
-- inside of the array; when it throws, the keys, the counters and the callback are as before.
pub set_session_ticket_keys-safe :
    (ctx_is_null : Bool) (malloc : ℕ → Bool) (elements : Bool) (b : List ℕ) (c : TicketState)
    → (r : Outcome (Unit {0}) × TicketState) × (set_session_ticket_keys ctx_is_null malloc elements
          b c
        ≡ some r)
      × ((x : Exception) → r.0 ≡ thrown x → r.1 ≡ c)
unfolding set_session_ticket_keys
set_session_ticket_keys-safe true malloc elements b c =
    ((thrown null_pointer, c), refl, λ x e. refl)
set_session_ticket_keys-safe false malloc elements b c =
    elim (Bool-cases (malloc (length b / 48))) [
      | inr full ↦ ((thrown exception, c), rw full refl, λ x e. refl)
      | inl room ↦ elim (Bool-cases elements) [
        | inr missing ↦ ((thrown exception, c), rw (room, missing) refl, λ x e. refl)
        | inl there ↦ (
          (
            returned tt,
            record c { ticket_keys = keys_at (length b / 48) 0 b; callback_set = true },
          ),
          rw (room, there, read_keys-in (length b / 48) 0 b (omega arith)) refl,
          λ x e. cc,
        )
      ]
    ]
