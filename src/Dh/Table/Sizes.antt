-- ===== src/Dh/Table/Sizes.antt =====
-- The sizes of the Diffie-Hellman parameters that OpenSSL is handed.
use netty_tcnative.Base.{
  ℕ, ◌+◌, ◌-◌, ◌*◌, ◌%◌, ◌^◌, ◌≤◌, ◌<◌, ◌≡◌, ◌≢◌, ◌⊎◌, ==_iff, refl, sym, ap, subst, ◌∙◌, List, [],
  ◌∷◌, Bool, false, Option, none, some, ◌||◌, if◌then◌else◌, ◌==◌, leb→le, arith, Bool-cases, inl,
  inr,
}
use netty_tcnative.Base.Jni.{returned, thrown, exception}
use netty_tcnative.Dh.Primes.{dh512_p, dh1024_p, dh2048_p, dh4096_p, dhxxx2_g}
use netty_tcnative.Dh.Table.{
  Dh, DhHeap, DhAnswers, key_dh_512, key_dh_1024, key_dh_2048, key_dh_4096, prime_of, fill_dh,
  get_dh, dh_get_tmp_param, TempKeys, missing, tmp_key_init_dh, tmp_keys_init, callback_tmp_dh,
  callback_tmp_dh_of, set_tmp_dh_length,
}

-- The number that BN_bin2bn reads from bytes, the first of them the highest.
number_from : ℕ → List ℕ → ℕ
number_from n [] = n
number_from n (x ∷ xs) = number_from (n * 256 + x) xs

pub number : List ℕ → ℕ
number xs = number_from 0 xs

-- An odd number of exactly so many bits.
pub HasBits : List ℕ → ℕ → Type 0
HasBits p bits = (2 ^ (bits - 1) ≤ number p) × (number p < 2 ^ bits) × (number p % 2 ≡ 1)

dh512_p-HasBits : HasBits dh512_p 512
unfolding HasBits number number_from dh512_p
dh512_p-HasBits = (leb→le _ _ refl, omega arith, refl)

dh1024_p-HasBits : HasBits dh1024_p 1024
unfolding HasBits number number_from dh1024_p
dh1024_p-HasBits = (leb→le _ _ refl, omega arith, refl)

dh2048_p-HasBits : HasBits dh2048_p 2048
unfolding HasBits number number_from dh2048_p
dh2048_p-HasBits = (leb→le _ _ refl, omega arith, refl)

dh4096_p-HasBits : HasBits dh4096_p 4096
unfolding HasBits number number_from dh4096_p
dh4096_p-HasBits = (leb→le _ _ refl, omega arith, refl)

fill_dh-prime :
    (o : Option (List ℕ)) (a : DhAnswers) (h : DhHeap) (d : Dh)
    → (fill_dh o a h).0 ≡ some d
    → (o ≡ some d.prime) × (d.generator ≡ dhxxx2_g)
unfolding fill_dh
fill_dh-prime none a h d e = cc
fill_dh-prime (some p) a h d e = ground arith

get_dh-prime :
    (idx : ℕ) (a : DhAnswers) (h : DhHeap) (d : Dh)
    → (get_dh idx a h).0 ≡ some d
    → (prime_of idx ≡ some d.prime) × (d.generator ≡ dhxxx2_g)
unfolding get_dh
get_dh-prime idx a h d e = elim (Bool-cases a.dh_new) [
  | inl k ↦ fill_dh-prime (prime_of idx) a h d (simp k at e)
  | inr k ↦ absurd (ground arith)
]

not_missing : (o : Option Dh) → missing o ≡ false → (d : Dh) × (o ≡ some d)
not_missing none e = cc
not_missing (some d) e = (d, refl)

-- A slot of the table that serves parameters of so many bits.
abbrev pub Serves : Option Dh → ℕ → Type 0
Serves o bits = (d : Dh) × (o ≡ some d) × HasBits d.prime bits × (number d.generator ≡ 2)

some_injective : (p q : List ℕ) → some p ≡ some q → p ≡ q
some_injective p q e = cc

serve :
    (bits idx : ℕ) (p : List ℕ) (a : DhAnswers) (h : DhHeap)
    → prime_of idx ≡ some p
    → HasBits p bits
    → missing (get_dh idx a h).0 ≡ false
    → Serves (get_dh idx a h).0 bits
unfolding number number_from dhxxx2_g
serve bits idx p a h e k m =
    let d = not_missing (get_dh idx a h).0 m in
    let f = get_dh-prime idx a h d.0 d.1 in
    (
      d.0,
      d.1,
      subst (λ q. HasBits q bits) (some_injective p d.0.prime (sym e ∙ f.0)) k,
      ap number f.1,
    )

-- The number of bits that a length stands for: 1024 if it is none of the four.
abbrev pub bits_for : ℕ → ℕ
bits_for keylen =
    if keylen == 512
    then 512
    else if keylen == 2048
    then 2048
    else if keylen == 4096
    then 4096
    else 1024

no_failure :
    (a b c d : Bool)
    → (a || (b || (c || d))) ≡ false
    → (a ≡ false) × (b ≡ false) × (c ≡ false) × (d ≡ false)
no_failure a b c d e = ground arith

-- Every slot of the table after SSL_TMP_KEYS_INIT without a failure.
tmp_keys_init-slots :
    (a : ℕ → DhAnswers) (s : TempKeys × DhHeap)
    → (tmp_keys_init a s).0 ≡ false
    → Serves ((tmp_keys_init a s).1 key_dh_512) 512
      × Serves ((tmp_keys_init a s).1 key_dh_1024) 1024
      × Serves ((tmp_keys_init a s).1 key_dh_2048) 2048
      × Serves ((tmp_keys_init a s).1 key_dh_4096) 4096
unfolding tmp_keys_init tmp_key_init_dh dh_get_tmp_param prime_of
tmp_keys_init-slots a (keys, h) e =
    let f = no_failure _ _ _ _ e in
    (
      serve 512 1 dh512_p (a 1) _ refl dh512_p-HasBits f.0,
      serve 1024 2 dh1024_p (a 2) _ refl dh1024_p-HasBits f.1,
      serve 2048 3 dh2048_p (a 3) _ refl dh2048_p-HasBits f.2,
      serve 4096 4 dh4096_p (a 4) _ refl dh4096_p-HasBits f.3,
    )

callback_tmp_dh-Serves :
    (keys : TempKeys) (keylen : ℕ)
    → Serves (keys key_dh_512) 512
    → Serves (keys key_dh_1024) 1024
    → Serves (keys key_dh_2048) 2048
    → Serves (keys key_dh_4096) 4096
    → Serves (callback_tmp_dh keys keylen) (bits_for keylen)
unfolding callback_tmp_dh
callback_tmp_dh-Serves keys keylen s1 s2 s3 s4 = elim (Bool-cases (keylen == 512)) [
  | inl h1 ↦ simp h1 s1
  | inr h1 ↦ elim (Bool-cases (keylen == 1024)) [
    | inl h2 ↦ let at : keylen ≡ 1024 = (==_iff keylen 1024).0 h2 in simp at s2
    | inr h2 ↦ elim (Bool-cases (keylen == 2048)) [
      | inl h3 ↦ simp (h1, h2, h3) s3
      | inr h3 ↦ elim (Bool-cases (keylen == 4096)) [
        | inl h4 ↦ simp (h1, h2, h3, h4) s4
        | inr h4 ↦ simp (h1, h2, h3, h4) s2
      ]
    ]
  ]
]

-- A length that `setTmpDHLength` takes, with a callback that serves it, or one that it refuses.
abbrev pub Registers : TempKeys → ℕ → Type 0
Registers keys length =
    ((f : TempKeys → ℕ → Option Dh) × (set_tmp_dh_length length ≡ returned f)
      × ((keylen : ℕ) → Serves (f keys keylen) length))
    ⊎ ((set_tmp_dh_length length ≡ thrown exception) × (bits_for length ≢ length))

set_tmp_dh_length-Registers :
    (keys : TempKeys) (length : ℕ)
    → Serves (keys key_dh_512) 512
    → Serves (keys key_dh_1024) 1024
    → Serves (keys key_dh_2048) 2048
    → Serves (keys key_dh_4096) 4096
    → Registers keys length
unfolding set_tmp_dh_length callback_tmp_dh_of
set_tmp_dh_length-Registers keys length s1 s2 s3 s4 = elim (Bool-cases (length == 512)) [
  | inl h1 ↦
      let at : length ≡ 512 = (==_iff length 512).0 h1 in
      inl (callback_tmp_dh_of key_dh_512, simp h1, λ k. simp at s1)
  | inr h1 ↦ elim (Bool-cases (length == 1024)) [
    | inl h2 ↦
        let at : length ≡ 1024 = (==_iff length 1024).0 h2 in
        inl (callback_tmp_dh_of key_dh_1024, simp (h1, h2), λ k. simp at s2)
    | inr h2 ↦ elim (Bool-cases (length == 2048)) [
      | inl h3 ↦
          let at : length ≡ 2048 = (==_iff length 2048).0 h3 in
          inl (callback_tmp_dh_of key_dh_2048, simp (h1, h2, h3), λ k. simp at s3)
      | inr h3 ↦ elim (Bool-cases (length == 4096)) [
        | inl h4 ↦
            let at : length ≡ 4096 = (==_iff length 4096).0 h4 in
            inl (callback_tmp_dh_of key_dh_4096, simp (h1, h2, h3, h4), λ k. simp at s4)
        | inr h4 ↦ inr (simp (h1, h2, h3, h4), λ e. ground arith)
      ]
    ]
  ]
]

-- `get_dh` gives nothing and leaves nothing live, or a DH object that owns its numbers.
pub get_dh-owned :
    (idx : ℕ) (a : DhAnswers) (h : DhHeap)
    → (((get_dh idx a h).0 ≡ none)
        × ((get_dh idx a h).1.dhs ≡ h.dhs)
        × ((get_dh idx a h).1.bignums ≡ h.bignums))
      ⊎ ((d : Dh) × ((get_dh idx a h).0 ≡ some d)
          × ((get_dh idx a h).1.dhs ≡ h.dhs + 1)
          × ((get_dh idx a h).1.bignums ≡ h.bignums))
unfolding get_dh fill_dh
get_dh-owned idx a h = ground arith

-- After SSL_TMP_KEYS_INIT has reported no failure, tcn_SSL_callback_tmp_DH gives, for each length,
-- parameters with an odd modulus of exactly that many bits and the generator 2 (of 1024 bits if the
-- length is not 512, 1024, 2048 or 4096), and setTmpDHLength registers a callback that gives parameters
-- of the length asked for, or throws if that is none of the four.
pub tmp_keys_init-Serves :
    (a : ℕ → DhAnswers) (s : TempKeys × DhHeap) (length : ℕ)
    → (tmp_keys_init a s).0 ≡ false
    → Serves (callback_tmp_dh (tmp_keys_init a s).1 length) (bits_for length)
      × Registers (tmp_keys_init a s).1 length
tmp_keys_init-Serves a s length e =
    let t = tmp_keys_init-slots a s e in
    (
      callback_tmp_dh-Serves (tmp_keys_init a s).1 length t.0 t.1 t.2 t.3,
      set_tmp_dh_length-Registers (tmp_keys_init a s).1 length t.0 t.1 t.2 t.3,
    )
