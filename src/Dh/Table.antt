-- ===== src/Dh/Table.antt =====
-- The table of Diffie-Hellman parameters, in a build with OPENSSL_VERSION_NUMBER < 0x30000000L.
pub mod Sizes
use netty_tcnative.Base.{
  ℕ, ◌+◌, ◌-◌, List, Bool, true, false, Option, none, some, not, if◌then◌else◌, ◌==◌, ◌||◌,
}
use netty_tcnative.Base.Jni.{Outcome, returned, thrown, exception}
use netty_tcnative.Dh.Primes.{dh512_p, dh1024_p, dh2048_p, dh4096_p, dhxxx2_g}

-- A DH object with its prime and its generator.
pub record Dh : Type 0 where
  pub prime : List ℕ
  pub generator : List ℕ

-- The live DH objects, and the live numbers that no DH object owns.
pub record DhHeap : Type 0 where
  pub dhs : ℕ
  pub bignums : ℕ

-- DH_new, BN_bin2bn of the prime and of the generator, DH_set0_pqg.
pub record DhAnswers : Type 0 where
  pub dh_new : Bool
  pub prime_made : Bool
  pub generator_made : Bool
  pub set0_pqg : Bool

-- SSL_TMP_KEY_DH_512 to SSL_TMP_KEY_DH_4096.
abbrev pub key_dh_512 : ℕ
key_dh_512 = 1

abbrev pub key_dh_1024 : ℕ
key_dh_1024 = 2

abbrev pub key_dh_2048 : ℕ
key_dh_2048 = 3

abbrev pub key_dh_4096 : ℕ
key_dh_4096 = 4

-- The switch of `get_dh`: `none` is no case.
unfoldable pub prime_of : ℕ → Option (List ℕ)
prime_of idx =
    if idx == key_dh_512
    then some dh512_p
    else if idx == key_dh_1024
    then some dh1024_p
    else if idx == key_dh_2048
    then some dh2048_p
    else if idx == key_dh_4096
    then some dh4096_p
    else none

-- `get_dh` after DH_new. At `error` everything is freed.
unfoldable pub fill_dh : Option (List ℕ) → DhAnswers → DhHeap → Option Dh × DhHeap
fill_dh none a h = (none, record h { dhs = h.dhs + 1 - 1 })
fill_dh (some p) a h =
    if not a.prime_made
    then (none, record h { dhs = h.dhs + 1 - 1 })
    else if not a.generator_made
    then (none, record h { dhs = h.dhs + 1 - 1; bignums = h.bignums + 1 - 1 })
    else if not a.set0_pqg
    then (none, record h { dhs = h.dhs + 1 - 1; bignums = h.bignums + 2 - 1 - 1 })
    else (
      some (record { prime = p; generator = dhxxx2_g }),
      record h { dhs = h.dhs + 1; bignums = h.bignums + 2 - 2 },
    )

unfoldable pub get_dh : ℕ → DhAnswers → DhHeap → Option Dh × DhHeap
get_dh idx a h = if a.dh_new then fill_dh (prime_of idx) a h else (none, h)

-- The index that `tcn_SSL_dh_get_tmp_param` and `tcn_SSL_callback_tmp_DH` choose for a length.
abbrev pub index_for : ℕ → ℕ
index_for key_len =
    if key_len == 512
    then key_dh_512
    else if key_len == 1024
    then key_dh_1024
    else if key_len == 2048
    then key_dh_2048
    else if key_len == 4096
    then key_dh_4096
    else key_dh_1024

-- `tcn_SSL_dh_get_tmp_param`.
unfoldable pub dh_get_tmp_param : ℕ → DhAnswers → DhHeap → Option Dh × DhHeap
dh_get_tmp_param key_len a h = get_dh (index_for key_len) a h

-- `SSL_temp_keys`, by its indices.
abbrev pub TempKeys : Type 0
TempKeys = ℕ → Option Dh

abbrev pub put_key : ℕ → Option Dh → TempKeys → TempKeys
put_key idx v keys i = if idx == i then v else keys i

abbrev pub missing : Option Dh → Bool
missing none = true
missing (some v) = false

-- `ssl_tmp_key_init_dh`: `true` is a failure.
unfoldable pub tmp_key_init_dh : ℕ → ℕ → DhAnswers → TempKeys × DhHeap → Bool × TempKeys × DhHeap
tmp_key_init_dh bits idx a (keys, h) =
    let r = dh_get_tmp_param bits a h in (missing r.0, put_key idx r.0 keys, r.1)

-- SSL_TMP_KEYS_INIT: all four are tried, and the failures are or'ed. Each has answers of its own.
unfoldable pub tmp_keys_init : (ℕ → DhAnswers) → TempKeys × DhHeap → Bool × TempKeys × DhHeap
tmp_keys_init a s =
    let r1 = tmp_key_init_dh 512 key_dh_512 (a key_dh_512) s in
    let r2 = tmp_key_init_dh 1024 key_dh_1024 (a key_dh_1024) (r1.1, r1.2) in
    let r3 = tmp_key_init_dh 2048 key_dh_2048 (a key_dh_2048) (r2.1, r2.2) in
    let r4 = tmp_key_init_dh 4096 key_dh_4096 (a key_dh_4096) (r3.1, r3.2) in
    (r1.0 || (r2.0 || (r3.0 || r4.0)), r4.1, r4.2)

-- `tcn_SSL_callback_tmp_DH`, and the callbacks for one length.
pub callback_tmp_dh : TempKeys → ℕ → Option Dh
callback_tmp_dh keys keylen = keys (index_for keylen)

pub callback_tmp_dh_of : ℕ → TempKeys → ℕ → Option Dh
callback_tmp_dh_of idx keys keylen = keys idx

-- `setTmpDHLength` of a context that is not NULL: the callback that is registered.
pub set_tmp_dh_length : ℕ → Outcome (TempKeys → ℕ → Option Dh)
set_tmp_dh_length length =
    if length == 512
    then returned (callback_tmp_dh_of key_dh_512)
    else if length == 1024
    then returned (callback_tmp_dh_of key_dh_1024)
    else if length == 2048
    then returned (callback_tmp_dh_of key_dh_2048)
    else if length == 4096
    then returned (callback_tmp_dh_of key_dh_4096)
    else thrown exception
