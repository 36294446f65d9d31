-- ===== src/Certificate/Password.antt =====
-- `tcn_SSL_password_callback` of openssl-dynamic/src/main/c/sslutils.c.
pub mod Bounded
use netty_tcnative.Base.{
  ℕ, ◌+◌, ◌-◌, ◌∷◌, [], List, Option, none, some, ◌++◌, ◌>>=◌, if◌then◌else◌, take, replicate,
  write_at, ◌==◌,
}

-- `strncpy(buf, src, n)` into an object of the bytes `buf`, for a C string `src`: it stops after n
-- bytes, and fills up with zeros before.
abbrev pub strncpy : List ℕ → List ℕ → ℕ → Option (List ℕ)
strncpy buf src n = write_at buf 0 (take n (src ++ replicate n 0))

-- `strlen(buf)` of an object of the bytes `buf`.
abbrev pub strlen : List ℕ → Option ℕ
strlen [] = none
strlen (x ∷ xs) = if x == 0 then some 0 else strlen xs >>= λ n. some (n + 1)

-- The test `password[0]` before the copy.
pub copy_password : List ℕ → List ℕ → ℕ → Option (List ℕ)
copy_password buf [] bufsiz = some buf
copy_password buf (x ∷ xs) bufsiz = strncpy buf (x ∷ xs) bufsiz

-- `buf[bufsiz - 1] = '\0'` and the length, after the copy.
pub terminate : ℕ → List ℕ → Option (ℕ × List ℕ)
terminate bufsiz buf =
    if bufsiz == 0
    then none
    else write_at buf (bufsiz - 1) (0 ∷ []) >>= λ buf'. strlen buf' >>= λ n. some (n, buf')

-- `tcn_SSL_password_callback`: the value returned and the buffer afterwards. `none` for `buf` or
-- `password` is NULL; a password is the bytes of a C string before its NUL.
pub password_callback : Option (List ℕ) → ℕ → Option (List ℕ) → Option (ℕ × Option (List ℕ))
password_callback none bufsiz password = some (0, none)
password_callback (some buf) bufsiz none = some (0, some buf)
password_callback (some buf) bufsiz (some password) = write_at buf 0 (0 ∷ []) >>= λ cleared.
    copy_password cleared password bufsiz >>= λ copied.
    terminate bufsiz copied >>= λ r. some (r.0, some r.1)
