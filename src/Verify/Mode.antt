-- ===== src/Verify/Mode.antt =====
-- The verify mode that `tcn_set_verify_config` stores and the one that it returns.
use netty_tcnative.Base.{ℕ, ◌≤◌, ◌≡◌, arith}
use netty_tcnative.Base.Int.{ℤ, pos, negsuc}
use netty_tcnative.Verify.{VerifyConfig, PeerVerify, set_verify_config, set_mode, stored_mode}

-- The stored mode is one of the three.
abbrev pub IsKnown : VerifyConfig → Type 0
IsKnown c = c.verify_mode ≤ 2

-- What `tcn_set_verify_config` promises for one call.
pub record Settled (c : VerifyConfig) (mode depth : ℤ) (r : PeerVerify × VerifyConfig)
    : Type 0 where
  pub agrees : r.0 ≡ stored_mode r.1.verify_mode
  pub known : IsKnown r.1
  pub ignored : mode ≡ negsuc 0 → r.1.verify_mode ≡ c.verify_mode
  pub depth_set : (d : ℕ) → depth ≡ pos d → r.1.verify_depth ≡ d
  pub depth_kept : (n : ℕ) → depth ≡ negsuc n → r.1.verify_depth ≡ c.verify_depth

-- From a configuration whose mode is one of the three, for every mode and depth that Java passes:
-- the mode returned for OpenSSL is the one that belongs to the mode stored, which is again one of
-- the three; SSL_CVERIFY_IGNORED keeps the stored mode, and a negative depth keeps the stored depth.
pub set_verify_config-Settled :
    (c : VerifyConfig) (mode depth : ℤ)
    → IsKnown c
    → Settled c mode depth (set_verify_config c mode depth)
unfolding set_verify_config set_mode
set_verify_config-Settled c mode depth known = record {
  agrees = ground arith;
  known = ground arith;
  ignored = λ e. ground arith;
  depth_set = λ d e. ground arith;
  depth_kept = λ n e. ground arith;
}

-- Applying what is stored once more changes nothing and gives the mode that belongs to it.
pub set_verify_config-again :
    (c : VerifyConfig)
    → IsKnown c
    → set_verify_config c (pos c.verify_mode) (pos c.verify_depth) ≡ (stored_mode c.verify_mode, c)
unfolding set_verify_config set_mode
set_verify_config-again c known = ground arith
