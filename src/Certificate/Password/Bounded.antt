-- ===== src/Certificate/Password/Bounded.antt =====
-- What the password callback leaves in the buffer of OpenSSL.
use netty_tcnative.Base.{
  ℕ, zero, suc, ◌+◌, ◌-◌, ◌≤◌, ◌<◌, ◌≡◌, refl, sym, ap, ◌∙◌, List, [], ◌∷◌, ◌++◌, false, none, some,
  length, take, drop, replicate, write_at, arith, length-append, length-take, length-drop,
  take-append_le, take-take, ◌==◌,
}
use netty_tcnative.Certificate.Password.{
  strncpy, strlen, copy_password, terminate, password_callback,
}

-- The bytes of a C string before its NUL.
unfoldable pub IsString : List ℕ → Type 0
IsString [] = Unit
IsString (x ∷ xs) = (0 < x) × IsString xs

IsString-take : (n : ℕ) (xs : List ℕ) → IsString xs → IsString (take n xs)
unfolding IsString
IsString-take zero xs h = tt
IsString-take (suc n) [] h = tt
IsString-take (suc n) (x ∷ xs) h = (h.0, IsString-take n xs h.1)

strlen-nul : (xs ys : List ℕ) → IsString xs → strlen (xs ++ 0 ∷ ys) ≡ some (length xs)
unfolding IsString
strlen-nul [] ys h = refl
strlen-nul (x ∷ xs) ys h = ground (arith, strlen-nul xs ys)

pub length-replicate : (n : ℕ) (a : ℕ) → length (replicate n a) ≡ n
length-replicate zero a = refl
length-replicate (suc n) a = ap suc (length-replicate n a)

write_at-in :
    (xs ys : List ℕ) (off : ℕ)
    → off + length ys ≤ length xs
    → write_at xs off ys ≡ some (take off xs ++ (ys ++ drop (off + length ys) xs))
write_at-in xs ys off h = ground arith

-- The first m bytes of the copy, and what ends them.
padded :
    (pw : List ℕ) (m n : ℕ)
    → m < n
    → (ys : List ℕ) → (zs : List ℕ) × (take m (pw ++ replicate n 0) ++ 0 ∷ ys ≡ take m pw ++ 0 ∷ zs)
padded pw zero n h ys = (ys, refl)
padded [] (suc m) zero h ys = absurd (omega arith)
padded [] (suc m) (suc n) h ys = (take m (replicate n 0) ++ 0 ∷ ys, refl)
padded (x ∷ pw) (suc m) n h ys = let r = padded pw m n (omega arith) ys in (r.0, ap (◌∷◌ x) r.1)

write_at-first :
    (xs ys : List ℕ) (n : ℕ)
    → length ys ≡ n
    → n ≤ length xs
    → write_at xs 0 ys ≡ some (ys ++ drop n xs)
write_at-first xs ys n e h =
    write_at-in xs ys 0 (omega arith)
    ∙ ap (λ k. some (ys ++ drop k xs)) {x = 0 + length ys} {y = n} (omega (arith, e))

strncpy-in :
    (buf pw : List ℕ) (n : ℕ)
    → n ≤ length buf
    → strncpy buf pw n ≡ some (take n (pw ++ replicate n 0) ++ drop n buf)
strncpy-in buf pw n h =
    write_at-first buf (take n (pw ++ replicate n 0)) n
      (omega (
        arith,
        length-take n (pw ++ replicate n 0),
        length-append pw (replicate n 0),
        length-replicate n 0,
      ))
      h

-- The buffer after the copy has its length, and begins with the password as far as it fits.
copied :
    (buf pw : List ℕ) (m : ℕ)
    → m < length buf
    → (c : List ℕ) × (copy_password (0 ∷ drop 1 buf) pw (suc m) ≡ some c)
      × (length c ≡ length buf)
      × ((ys : List ℕ) → (zs : List ℕ) × (take m c ++ 0 ∷ ys ≡ take m pw ++ 0 ∷ zs))
unfolding copy_password
copied buf [] zero h = (0 ∷ drop 1 buf, refl, omega (arith, length-drop 1 buf), λ ys. (ys, refl))
copied buf [] (suc m) h = (
  0 ∷ drop 1 buf,
  refl,
  omega (arith, length-drop 1 buf),
  λ ys. (take m (drop 1 buf) ++ 0 ∷ ys, refl),
)
copied buf (x ∷ xs) m h =
    let n = suc m in
    let body = (x ∷ xs) ++ replicate n 0 in
    let rest = drop n (0 ∷ drop 1 buf) in
    let l : length (take n body) ≡ n =
      omega
        (arith, length-take n body, length-append (x ∷ xs) (replicate n 0), length-replicate n 0) in
    let first : take m (take n body ++ rest) ≡ take m body =
      take-append_le m (take n body) rest (omega arith)
      ∙ take-take m n body
      ∙ ap (λ k. take k body) {y = m} (omega arith) in
    (
      take n body ++ rest,
      strncpy-in (0 ∷ drop 1 buf) (x ∷ xs) n (omega (arith, length-drop 1 buf)),
      omega (
        arith,
        length-append (take n body) rest,
        length-drop n (0 ∷ drop 1 buf),
        length-drop 1 buf,
      ),
      λ ys.
          let p = padded (x ∷ xs) m n (omega arith) ys in (p.0, ap (λ t. t ++ 0 ∷ ys) first ∙ p.1),
    )

terminate-in :
    (c pw : List ℕ) (m : ℕ)
    → m < length c
    → IsString pw
    → (zs : List ℕ) → (take m c ++ 0 ∷ drop (m + 1) c ≡ take m pw ++ 0 ∷ zs)
    → terminate (suc m) c ≡ some (length (take m pw), take m pw ++ 0 ∷ zs)
unfolding terminate
terminate-in c pw m h s zs e =
    let w : write_at c m (0 ∷ []) ≡ some (take m pw ++ 0 ∷ zs) =
      write_at-in c (0 ∷ []) m (omega arith) ∙ ap some e in
    let n : strlen (take m pw ++ 0 ∷ zs) ≡ some (length (take m pw)) =
      strlen-nul (take m pw) zs (IsString-take m pw s) in
    let k : (suc m == 0) ≡ false = ground arith in
    let d : suc m - 1 ≡ m = omega arith in simp (k, d, w, n)

bounded_at :
    (buf pw c zs : List ℕ) (m : ℕ)
    → IsString pw
    → m < length buf
    → copy_password (0 ∷ drop 1 buf) pw (suc m) ≡ some c
    → length c ≡ length buf
    → take m c ++ 0 ∷ drop (m + 1) c ≡ take m pw ++ 0 ∷ zs
    → (final rest : List ℕ) × (password_callback (some buf) (suc m) (some pw)
        ≡ some (length (take m pw), some final))
      × (final ≡ take m pw ++ 0 ∷ rest)
      × (length final ≡ length buf)
      × (length (take m pw) ≤ m)
unfolding password_callback
bounded_at buf pw c zs m s h e l z =
    let t : terminate (suc m) c ≡ some (length (take m pw), take m pw ++ 0 ∷ zs) =
      terminate-in c pw m (omega arith) s zs z in
    let w : write_at buf 0 (0 ∷ []) ≡ some (0 ∷ drop 1 buf) =
      write_at-in buf (0 ∷ []) 0 (omega arith) in
    let n : length (take m pw ++ 0 ∷ zs) ≡ length buf =
      sym (ap length z)
      ∙ omega (
        arith,
        length-append (take m c) (0 ∷ drop (m + 1) c),
        length-take m c,
        length-drop (m + 1) c,
      ) in
    (take m pw ++ 0 ∷ zs, zs, simp (w, e, t), refl, n, omega (arith, length-take m pw))

-- With a buffer of at least `room + 1` bytes, of which the callback may use `room + 1`, it stays inside
-- of the buffer, leaves the password in it, cut to `room` bytes and ended by a NUL, and returns the
-- number of these bytes, which is at most `room`.
pub password_callback-bounded :
    (buf password : List ℕ) (room : ℕ)
    → IsString password
    → room < length buf
    → (final rest : List ℕ) × (password_callback (some buf) (suc room) (some password)
        ≡ some (length (take room password), some final))
      × (final ≡ take room password ++ 0 ∷ rest)
      × (length final ≡ length buf)
      × (length (take room password) ≤ room)
password_callback-bounded buf pw m s h =
    let c = copied buf pw m h in
    let z = c.3 (drop (m + 1) c.0) in bounded_at buf pw c.0 z.0 m s h c.1 c.2 z.1

pub password_callback-none :
    (buf : List ℕ) (bufsiz : ℕ) → password_callback (some buf) bufsiz none ≡ some (0, some buf)
unfolding password_callback
password_callback-none buf bufsiz = refl
