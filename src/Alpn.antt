-- ===== src/Alpn.antt =====
-- Protocol selection for NPN and ALPN: `select_next_proto` and its callbacks in
-- openssl-dynamic/src/main/c/sslutils.c, and the JNI calls of sslcontext.c that configure them.
-- A pointer into a protocol list is the list of the bytes from there to the end of its object.
pub mod Wire
pub mod Match
pub mod Select
pub mod Totality
pub mod Config
mod Tests
use netty_tcnative.Base.{
  ℕ, zero, suc, ◌+◌, ◌≤◌, Bool, true, false, ◌&&◌, Option, none, some, List, [], ◌∷◌, length, take,
  drop, eq_bytes, ltb, leb, ◌==◌, if◌then◌else◌,
}

-- SSL_SELECTOR_FAILURE_NO_ADVERTISE and SSL_SELECTOR_FAILURE_CHOOSE_MY_LAST_PROTOCOL.
abbrev pub no_advertise : ℕ
no_advertise = 0

abbrev pub choose_my_last_protocol : ℕ
choose_my_last_protocol = 1

-- What the scan of the peer's list for one protocol gives. `overread` is a read past the end of
-- an object, and `exhausted` means that the fuel of the model ran out.
pub data Scan : Type 0 where
  found : List ℕ → ℕ → Scan
  absent overread exhausted : Scan

-- The inner loop: `p` runs through the peer's list, and `target` bytes of `supported` are compared.
pub scan : ℕ → ℕ → List ℕ → List ℕ → Scan
scan fuel target supported [] = absent
scan zero target supported (proto_len ∷ proto) = exhausted
scan (suc fuel) target supported (proto_len ∷ proto) =
    let rest = scan fuel target supported (drop proto_len proto) in
    if leb proto_len (length proto) && target == proto_len
    then (if ltb (length supported) proto_len
        then overread
        else if eq_bytes (take proto_len supported) (take proto_len proto)
        then found proto proto_len
        else rest)
    else rest

-- SSL_TLSEXT_ERR_OK with `out` and `outlen`, SSL_TLSEXT_ERR_NOACK, or as for `Scan`.
pub data Selection : Type 0 where
  selected : List ℕ → ℕ → Selection
  noack overread exhausted : Selection

-- What follows the loops: the fallback to the last protocol, if one was seen.
pub fallback : ℕ → Option (List ℕ × ℕ) → Selection
fallback failure_behavior none = noack
fallback failure_behavior (some (last, last_len)) =
    if failure_behavior == choose_my_last_protocol then selected last last_len else noack

-- One round of the outer loop, after the scan for its protocol.
pub after_scan : Scan → Selection → Selection
after_scan (found proto proto_len) next = selected proto proto_len
after_scan absent next = next
after_scan overread next = overread
after_scan exhausted next = exhausted

-- The outer loop. `i` counts the bytes of the names only: the byte that holds a name's length moves
-- `supported` on but not `i`.
pub select_loop : ℕ → ℕ → ℕ → List ℕ → Option (List ℕ × ℕ) → List ℕ → ℕ → Selection
select_loop zero i supported_len supported last input failure_behavior = exhausted
select_loop (suc fuel) i supported_len [] last input failure_behavior =
    if ltb i supported_len then overread else fallback failure_behavior last
select_loop (suc fuel) i supported_len (target ∷ supported) last input failure_behavior =
    let next =
      select_loop fuel (i + target) supported_len (drop target supported) (some (supported, target))
        input failure_behavior in
    if ltb i supported_len
    then after_scan (scan (length input) target supported input) next
    else fallback failure_behavior last

-- `select_next_proto`. A round of either loop reads a length byte, so these fuels are enough.
pub select_next_proto : List ℕ → List ℕ → ℕ → ℕ → Selection
select_next_proto input supported supported_len failure_behavior =
    select_loop (suc (length supported)) 0 supported_len supported none input failure_behavior
