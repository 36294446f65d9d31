-- ===== src/Chain/Owned.antt =====
-- What the chain loaders own when they return.
use netty_tcnative.Base.{◌+◌, ◌≡◌, Bool, length}
use netty_tcnative.Chain.{ChainState, Loop, gave_up, loaded, counted}

-- Two states in which the same is owned.
pub record Owns (s t : ChainState) : Type 0 where
  pub same_x509 : t.live_x509 ≡ s.live_x509
  pub same_bios : t.live_bios ≡ s.live_bios
  pub same_stacks : t.live_stacks ≡ s.live_stacks
  pub same_buffers : t.live_buffers ≡ s.live_buffers
  pub same_encodings : t.live_encodings ≡ s.live_encodings

abbrev state : Loop → ChainState
state (gave_up s) = s
state (loaded n names s) = s

-- The names that a loop of BoringSSL owns besides what is owned outside of it.
abbrev Names : Bool → ChainState → Loop → Type 0
Names stack s (gave_up t) = Owns s t
Names stack s (loaded n names t) =
    (t.live_x509 ≡ s.live_x509)
    × (t.live_bios ≡ s.live_bios)
    × (t.live_stacks ≡ s.live_stacks + counted stack)
    × (t.live_buffers ≡ s.live_buffers + length names)
    × (t.live_encodings ≡ s.live_encodings)
