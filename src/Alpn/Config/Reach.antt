-- ===== src/Alpn/Config/Reach.antt =====
-- Contexts that the configuration calls can produce, and what their callbacks select.
use netty_tcnative.Base.{
  ℕ, ◌<◌, ◌≡◌, ◌≢◌, refl, ap, ◌∙◌, Bool, true, false, Option, some, List, ◌++◌, length, arith, ◌==◌,
  lt→ltb,
}
use netty_tcnative.Base.Int.{ℤ}
use netty_tcnative.Base.Jni.{Outcome, thrown, out_of_memory}
use netty_tcnative.Alpn.{Selection, selected, select_next_proto, select_loop, no_advertise}
use netty_tcnative.Alpn.Wire.{encode, first_common}
use netty_tcnative.Alpn.Select.{select_next_proto-common}
use netty_tcnative.Alpn.Totality.{SelectedIn, select_next_proto-SelectedIn}
use netty_tcnative.Alpn.Config.{
  ProtocolConfig, new_config, set_npn_protos, set_alpn_protos, callback_select_next_proto,
  callback_alpn_select_proto, mode_client, readable,
}

-- A context after any sequence of configuration calls, with any arguments and outcomes.
pub data Configured : ProtocolConfig → Type 0 where
  made : (mode : ℕ) → Configured (new_config mode)
  npn_set :
      (ctx_is_null : Bool) (malloc : ℕ → Bool) (protos : Option (List ℕ)) (behavior : ℤ)
      {c : ProtocolConfig}
      → Configured c
      → Configured (set_npn_protos ctx_is_null malloc protos behavior c).1
  alpn_set :
      (ctx_is_null : Bool) (malloc : ℕ → Bool) (protos : Option (List ℕ)) (behavior : ℤ)
      {c : ProtocolConfig}
      → Configured c
      → Configured (set_alpn_protos ctx_is_null malloc protos behavior c).1

-- The failure behaviours that a context has.
behaviors : ProtocolConfig → ℕ × ℕ
behaviors c = (c.next_selector_failure_behavior, c.alpn_selector_failure_behavior)

set_npn_protos-behaviors :
    (ctx_is_null : Bool) (malloc : ℕ → Bool) (protos : Option (List ℕ)) (behavior : ℤ)
    (c : ProtocolConfig)
    → behaviors (set_npn_protos ctx_is_null malloc protos behavior c).1 ≡ behaviors c
unfolding set_npn_protos behaviors
set_npn_protos-behaviors ctx_is_null malloc protos behavior c = ground arith

set_alpn_protos-behaviors :
    (ctx_is_null : Bool) (malloc : ℕ → Bool) (protos : Option (List ℕ)) (behavior : ℤ)
    (c : ProtocolConfig)
    → behaviors (set_alpn_protos ctx_is_null malloc protos behavior c).1 ≡ behaviors c
unfolding set_alpn_protos behaviors
set_alpn_protos-behaviors ctx_is_null malloc protos behavior c = ground arith

-- Whatever failure behaviours Java passes to `setNpnProtos0` and `setAlpnProtos0`, the context keeps
-- the value 0 (no advertise) that it was allocated with, for both of them.
pub Configured-no_advertise :
    (c : ProtocolConfig)
    → Configured c
    → (c.next_selector_failure_behavior ≡ no_advertise)
      × (c.alpn_selector_failure_behavior ≡ no_advertise)
unfolding new_config behaviors
Configured-no_advertise _ (made mode) = (refl, refl)
Configured-no_advertise _ (npn_set ctx_is_null malloc protos behavior {c} h) =
    let ih = Configured-no_advertise c h in
    let e = set_npn_protos-behaviors ctx_is_null malloc protos behavior c in
    (ap (λ p. p.0) e ∙ ih.0, ap (λ p. p.1) e ∙ ih.1)
Configured-no_advertise _ (alpn_set ctx_is_null malloc protos behavior {c} h) =
    let ih = Configured-no_advertise c h in
    let e = set_alpn_protos-behaviors ctx_is_null malloc protos behavior c in
    (ap (λ p. p.0) e ∙ ih.0, ap (λ p. p.1) e ∙ ih.1)

-- For a context after any configuration calls and any bytes of the peer, a protocol that the ALPN or
-- the NPN selection callback selects is a name of the peer's list and lies within that list, even if
-- Java asked for the fallback to the own last protocol.
pub callback-SelectedIn :
    (c : ProtocolConfig) (input : List ℕ)
    → Configured c
    → SelectedIn input (callback_alpn_select_proto c input)
      × SelectedIn input (callback_select_next_proto c input)
unfolding callback_alpn_select_proto callback_select_next_proto
callback-SelectedIn c input h =
    let zeros = Configured-no_advertise c h in
    (
      rw zeros.1 (select_next_proto-SelectedIn input (readable c.alpn_proto_data) c.alpn_proto_len),
      rw zeros.0 (select_next_proto-SelectedIn input (readable c.next_proto_data) c.next_proto_len),
    )

-- A server context that is given the well-formed list `ours` for ALPN registers the selection
-- callback; against a well-formed list of the peer that shares a protocol with `ours`, that callback
-- selects the first one of `ours` that the peer offers.
pub set_alpn_protos-selects :
    (c : ProtocolConfig) (malloc : ℕ → Bool) (behavior : ℤ) (ours theirs : List (List ℕ))
    (p : List ℕ)
    → c.mode ≢ mode_client
    → malloc (length (encode ours)) ≡ true
    → first_common ours theirs ≡ some p
    → let d : ProtocolConfig = (set_alpn_protos false malloc (some (encode ours)) behavior c).1 in
      (d.alpn_select_cb ≡ true)
      × ((rest : List ℕ) × (callback_alpn_select_proto d (encode theirs)
            ≡ selected (p ++ rest) (length p)))
unfolding set_alpn_protos callback_alpn_select_proto
set_alpn_protos-selects c malloc behavior ours theirs p server room common =
    rw (room, other)
      (refl, select_next_proto-common ours theirs c.alpn_selector_failure_behavior p common)
  where
    other : (c.mode == mode_client) ≡ false
    other = ground arith

-- When the allocation of `setAlpnProtos0` fails on a context that had a list of one byte or more, it
-- throws, and the context keeps the old length with a NULL list: the selection callback that is
-- still registered then reads through NULL, whatever the peer sends.
pub set_alpn_protos-stale_length :
    (c : ProtocolConfig) (malloc : ℕ → Bool) (behavior : ℤ) (protos input : List ℕ)
    → malloc (length protos) ≡ false
    → 0 < c.alpn_proto_len
    → let r : Outcome (Unit {0}) × ProtocolConfig =
        set_alpn_protos false malloc (some protos) behavior c in
      (r.0 ≡ thrown out_of_memory) × (callback_alpn_select_proto r.1 input ≡ Selection.overread)
unfolding set_alpn_protos callback_alpn_select_proto select_next_proto select_loop
set_alpn_protos-stale_length c malloc behavior protos input full old =
    rw full (refl, rw (lt→ltb 0 c.alpn_proto_len old) refl)
