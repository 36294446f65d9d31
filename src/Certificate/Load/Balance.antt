-- ===== src/Certificate/Load/Balance.antt =====
-- What the loaders own when they return.
use netty_tcnative.Base.{
  ℕ, ◌+◌, ◌≤◌, ◌≡◌, refl, List, [], ◌∷◌, Option, none, some, length, take, arith, ◌||◌, Bool-cases,
  inl, inr,
}
use netty_tcnative.Certificate.Password.{password_callback}
use netty_tcnative.Certificate.Password.Bounded.{
  IsString, password_callback-bounded, password_callback-none,
}
use netty_tcnative.Certificate.Load.{
  Live, Callback, FileAnswers, Readers, counted, load_pem_key_bio, load_pem_cert_bio, load_pem_key,
  load_pem_cert, bio_opened, bio_closed, Pkcs12Answers, Pair, check_mac, pem_bufsize,
  pkcs12_password, with_pair, counted_pair, parse_with, pkcs12_freed, load_pkcs12,
}

-- From `l` to `l'` some keys and certificates are added, and nothing else changes.
pub record Adds (l : Live) (keys certs : ℕ) (l' : Live) : Type 0 where
  pub same_strings : l'.strings ≡ l.strings
  pub same_passwords : l'.passwords ≡ l.passwords
  pub same_bios : l'.bios ≡ l.bios
  pub same_pkcs12s : l'.pkcs12s ≡ l.pkcs12s
  pub more_keys : l'.keys ≡ l.keys + keys
  pub more_certs : l'.certs ≡ l.certs + certs

pub load_pem_key_bio-Adds :
    {B : Type 0} (r : Readers B) (password : Option (List ℕ)) (bio : B) (l : Live)
    → Adds l (counted (load_pem_key_bio r password bio l).0) 0 (load_pem_key_bio r password bio l).1
unfolding load_pem_key_bio
load_pem_key_bio-Adds r password bio l = ground arith

pub load_pem_cert_bio-Adds :
    {B : Type 0} (r : Readers B) (password : Option (List ℕ)) (bio : B) (l : Live)
    → Adds l 0
        (counted (load_pem_cert_bio r password bio l).0)
        (load_pem_cert_bio r password bio l).1
unfolding load_pem_cert_bio
load_pem_cert_bio-Adds r password bio l = ground arith

-- What is read does not depend on what is owned.
pub load_pem_key_bio-any :
    {B : Type 0} (r : Readers B) (password : Option (List ℕ)) (bio : B) (l m : Live)
    → (load_pem_key_bio r password bio l).0 ≡ (load_pem_key_bio r password bio m).0
unfolding load_pem_key_bio
load_pem_key_bio-any r password bio l m = refl

pub load_pem_cert_bio-any :
    {B : Type 0} (r : Readers B) (password : Option (List ℕ)) (bio : B) (l m : Live)
    → (load_pem_cert_bio r password bio l).0 ≡ (load_pem_cert_bio r password bio m).0
unfolding load_pem_cert_bio
load_pem_cert_bio-any r password bio l m = refl

-- A BIO that is opened before and closed after does not count.
bio_closed-Adds :
    {A : Type 0} (l : Live) (keys certs : ℕ) (r : A × Live)
    → Adds (bio_opened l) keys certs r.1
    → Adds l keys certs (bio_closed r).1
bio_closed-Adds l keys certs (a, l') h = record {
  same_strings = h.same_strings;
  same_passwords = h.same_passwords;
  same_bios = omega (arith, h.same_bios);
  same_pkcs12s = h.same_pkcs12s;
  more_keys = h.more_keys;
  more_certs = h.more_certs;
}

nothing : (l : Live) → Adds l 0 0 l
nothing l = ground arith

-- A loader that opens a file around a reader.
pub load_pem_key-Adds :
    (f : FileAnswers) (r : Readers (List ℕ)) (password : Option (List ℕ)) (file : List ℕ) (l : Live)
    → Adds l (counted (load_pem_key f r password file l).0) 0 (load_pem_key f r password file l).1
unfolding load_pem_key
load_pem_key-Adds f r password file l =
    let got = load_pem_key_bio r password file (bio_opened l) in
    elim (Bool-cases f.bio_new) [
      | inr h ↦ rw h (nothing l)
      | inl h ↦ elim (Bool-cases (f.read_filename file)) [
        | inr k ↦
            simp (h, k)
              (bio_closed-Adds {A = Option ℕ} l 0 0 (none, bio_opened l) (nothing (bio_opened l)))
        | inl k ↦
            simp (h, k)
              (bio_closed-Adds {A = Option ℕ} l (counted got.0) 0 got
                (load_pem_key_bio-Adds r password file (bio_opened l)))
      ]
    ]

pub load_pem_cert-Adds :
    (f : FileAnswers) (r : Readers (List ℕ)) (password : Option (List ℕ)) (file : List ℕ) (l : Live)
    → Adds l 0 (counted (load_pem_cert f r password file l).0) (load_pem_cert f r password file l).1
unfolding load_pem_cert
load_pem_cert-Adds f r password file l =
    let got = load_pem_cert_bio r password file (bio_opened l) in
    elim (Bool-cases f.bio_new) [
      | inr h ↦ rw h (nothing l)
      | inl h ↦ elim (Bool-cases (f.read_filename file)) [
        | inr k ↦
            simp (h, k)
              (bio_closed-Adds {A = Option ℕ} l 0 0 (none, bio_opened l) (nothing (bio_opened l)))
        | inl k ↦
            simp (h, k)
              (bio_closed-Adds {A = Option ℕ} l 0 (counted got.0) got
                (load_pem_cert_bio-Adds r password file (bio_opened l)))
      ]
    ]

-- A password that is there is the bytes of a C string.
unfoldable pub IsPassword : Option (List ℕ) → Type 0
IsPassword none = Unit
IsPassword (some s) = IsString s

-- With the array `buff` the callback returns, with and without a password.
callback_defined :
    (stack : List ℕ) (password : Option (List ℕ))
    → IsPassword password
    → pem_bufsize ≤ length stack
    → (r : ℕ × Option (List ℕ)) × (password_callback (some stack) pem_bufsize password ≡ some r)
unfolding IsPassword
callback_defined stack none s h = ((0, some stack), password_callback-none stack pem_bufsize)
callback_defined stack (some p) s h =
    let b = password_callback-bounded stack p 1023 s h in ((length (take 1023 p), some b.0), b.2)

pub pkcs12_password-defined :
    (a : Pkcs12Answers) (stack : List ℕ) (password : Option (List ℕ))
    → IsPassword password
    → pem_bufsize ≤ length stack
    → (pass : Option (List ℕ)) × (pkcs12_password a stack password ≡ some pass)
unfolding pkcs12_password
pkcs12_password-defined a stack password s h =
    let b = callback_defined stack password s h in
    elim (Bool-cases (a.mac (some (0 ∷ [])) 0 || a.mac none 0)) [
      | inl k ↦ (some (0 ∷ []), rw k refl)
      | inr k ↦ (check_mac a b.0, simp (k, b.1))
    ]

abbrev pub pair_key : Pair → ℕ
pair_key p = counted_pair (λ key cert. counted key) p

abbrev pub pair_cert : Pair → ℕ
pair_cert p = counted_pair (λ key cert. counted cert) p

with_pair-Adds :
    (l : Live) (p : Pair)
    → Adds l
        (pair_key p)
        (pair_cert p)
        (pkcs12_freed (with_pair p (record l { pkcs12s = l.pkcs12s + 1 }))).1
with_pair-Adds l p = ground arith

-- With the array `buff` of PEM_BUFSIZE bytes the loader of PKCS12 files has no undefined behaviour.
pub load_pkcs12-Adds :
    (f : FileAnswers) (a : Pkcs12Answers) (stack : List ℕ) (password : Option (List ℕ))
    (file : List ℕ) (l : Live)
    → IsPassword password
    → pem_bufsize ≤ length stack
    → (p : Pair) × (l' : Live) × (load_pkcs12 f a stack password file l ≡ some (p, l'))
      × Adds l (pair_key p) (pair_cert p) l'
unfolding load_pkcs12
load_pkcs12-Adds f a stack password file l s h =
    let pass = pkcs12_password-defined a stack password s h in
    let got =
      pkcs12_freed
        (with_pair (parse_with a pass.0) (record (bio_opened l) { pkcs12s = l.pkcs12s + 1 })) in
    let closed = bio_closed-Adds {A = Pair} l 0 0 (none, bio_opened l) (nothing (bio_opened l)) in
    elim (Bool-cases f.bio_new) [
      | inr h1 ↦ (none, l, rw h1 refl, nothing l)
      | inl h1 ↦ elim (Bool-cases (f.read_filename file)) [
        | inr h2 ↦ (none, (bio_closed {A = Pair} (none, bio_opened l)).1, simp (h1, h2), closed)
        | inl h2 ↦ elim (Bool-cases a.d2i) [
          | inr h3 ↦
              (none, (bio_closed {A = Pair} (none, bio_opened l)).1, simp (h1, h2, h3), closed)
          | inl h3 ↦ (
            (bio_closed got).0,
            (bio_closed got).1,
            simp (h1, h2, h3, pass.1),
            bio_closed-Adds {A = Pair} l _ _ got
                (with_pair-Adds (bio_opened l) (parse_with a pass.0)),
          )
        ]
      ]
    ]

-- A reader that finds nothing.
pub load_pem_key_bio-none :
    {B : Type 0} (r : Readers B) (password : Option (List ℕ)) (bio : B) (l : Live)
    → ((get : Callback) → r.read_private_key bio get ≡ none)
    → (load_pem_key_bio r password bio l).0 ≡ none
unfolding load_pem_key_bio
load_pem_key_bio-none r password bio l h = h (λ buf bufsiz. password_callback buf bufsiz password)
