-- ===== src/Context/Protocols.antt =====
-- Which protocols a new context uses: its method and its options.
use netty_tcnative.Base.{
  ℕ, ◌≡◌, ◌≢◌, refl, sym, ◌∙◌, subst, List, [], ◌∷◌, ◌++◌, Bool, true, false, not, ◌&&◌, ◌||◌, ◌==◌,
  ==_iff, arith,
}
use netty_tcnative.Context.{
  Version, sslv2, sslv3, tlsv1, tlsv1_1, tlsv1_2, tlsv1_3, bit, protocol_tls, protocol_all, has,
  only, any_version, with_buffers, Role, method, role, Build, buffers, modern, legacy, Choice,
  chosen, not_compiled, unsupported, one_version, highest, switch_protocol, choose_method,
  SslOption, no_version, unless, make_options,
}

-- Versions are compared by their bits.
abbrev same_version : Version → Version → Bool
same_version v w = bit v == bit w

abbrev is_no_version : Version → SslOption → Bool
is_no_version v (no_version w) = same_version v w
is_no_version v _ = false

-- Whether the options disable a version.
abbrev pub disables : List SslOption → Version → Bool
disables [] v = false
disables (o ∷ os) v = is_no_version v o || disables os v

disables-append :
    (os ps : List SslOption) (v : Version)
    → disables (os ++ ps) v ≡ (disables os v || disables ps v)
disables-append [] ps v = refl
disables-append (o ∷ os) ps v = ground (arith, disables-append os ps v)

disables-unless :
    (protocol : ℕ) (w v : Version)
    → disables (unless protocol w) v ≡ (same_version v w && not (has protocol w))
disables-unless protocol w v = ground arith

-- The versions that C has a bit for: all but TLSv1.3.
abbrev pub in_c : Version → Bool
in_c v = not (bit v == 32)

-- The versions that are tested one after the other.
any_unset : ℕ → Version → Bool
any_unset protocol v =
    (same_version v sslv2 && not (has protocol sslv2))
    || ((same_version v sslv3 && not (has protocol sslv3))
        || ((same_version v tlsv1 && not (has protocol tlsv1))
            || ((same_version v tlsv1_1 && not (has protocol tlsv1_1))
                || ((same_version v tlsv1_2 && not (has protocol tlsv1_2)) || false))))

any_unset-has :
    (protocol : ℕ) (v : Version) → any_unset protocol v ≡ (in_c v && not (has protocol v))
unfolding any_unset
any_unset-has protocol sslv2 = ground arith
any_unset-has protocol sslv3 = ground arith
any_unset-has protocol tlsv1 = ground arith
any_unset-has protocol tlsv1_1 = ground arith
any_unset-has protocol tlsv1_2 = ground arith
any_unset-has protocol tlsv1_3 = ground arith

make_options-disables :
    (ecc : Bool) (protocol : ℕ) (v : Version)
    → disables (make_options ecc protocol) v ≡ (in_c v && not (has protocol v))
unfolding make_options any_unset
make_options-disables true protocol v =
    simp (disables-append, disables-unless) (any_unset-has protocol v)
make_options-disables false protocol v =
    simp (disables-append, disables-unless) (any_unset-has protocol v)

own_bit : (v : Version) → has (bit v) v ≡ true
unfolding has
own_bit sslv2 = refl
own_bit sslv3 = refl
own_bit tlsv1 = refl
own_bit tlsv1_1 = refl
own_bit tlsv1_2 = refl
own_bit tlsv1_3 = refl

bit-has : (protocol : ℕ) (v : Version) → (protocol == bit v) ≡ true → has protocol v ≡ true
bit-has protocol v h = subst (λ p. has p v ≡ true) (sym ((==_iff protocol (bit v)).0 h)) (own_bit v)

-- A choice of a single version is one of the versions asked for.
abbrev Asked : ℕ → Choice → Type 0
Asked protocol (chosen (method (only v) r)) = has protocol v ≡ true
Asked protocol (chosen (method with_buffers r)) = Unit
Asked protocol (chosen (method any_version r)) = Unit
Asked protocol not_compiled = Unit
Asked protocol unsupported = Unit

highest-Asked : (x y z : Bool) (protocol mode : ℕ) → Asked protocol (highest x y z protocol mode)
unfolding highest
highest-Asked x y z protocol mode = ground arith

one_version-Asked :
    (absent : Bool) (v : Version) (protocol mode : ℕ)
    → has protocol v ≡ true
    → Asked protocol (one_version absent v mode)
one_version-Asked true v protocol mode h = tt
one_version-Asked false v protocol mode h = h

exact-Asked :
    (absent : Bool) (v : Version) (protocol mode : ℕ)
    → (protocol == bit v) ≡ true
    → Asked protocol (one_version absent v mode)
exact-Asked absent v protocol mode h =
    one_version-Asked absent v protocol mode (bit-has protocol v h)

switch_protocol-Asked :
    (x y z : Bool) (protocol mode : ℕ) → Asked protocol (switch_protocol x y z protocol mode)
unfolding switch_protocol
switch_protocol-Asked x y z protocol mode = ground (
  arith,
  highest-Asked x y z protocol mode,
  exact-Asked x tlsv1_2 protocol mode,
  exact-Asked x tlsv1_1 protocol mode,
  exact-Asked x tlsv1 protocol mode,
  exact-Asked y sslv3 protocol mode,
  exact-Asked z sslv2 protocol mode,
)

choose_method-Asked :
    (build : Build) (protocol mode : ℕ) → Asked protocol (choose_method build protocol mode)
unfolding choose_method
choose_method-Asked buffers protocol mode = tt
choose_method-Asked modern protocol mode = tt
choose_method-Asked (legacy x y z) protocol mode = switch_protocol-Asked x y z protocol mode

asked_enabled : (v : Version) (b : Bool) → b ≡ true → (in_c v && not b) ≡ false
asked_enabled v b e = ground arith

-- The options of a new context disable exactly the versions up to TLSv1.2 whose bit is not set, in every
-- build; TLSv1.3 they never disable, whether its bit is set or not. The method, if it is one of a single
-- version, is never disabled by them.
pub make_options-versions :
    (build : Build) (ecc : Bool) (protocol mode : ℕ)
    → ((v : Version) → disables (make_options ecc protocol) v ≡ (in_c v && not (has protocol v)))
      × ((v : Version) (r : Role)
          → choose_method build protocol mode ≡ chosen (method (only v) r)
          → disables (make_options ecc protocol) v ≡ false)
make_options-versions build ecc protocol mode = (
  λ v. make_options-disables ecc protocol v,
  λ v r e.
      make_options-disables ecc protocol v
      ∙ asked_enabled v (has protocol v)
          (subst (Asked protocol) e (choose_method-Asked build protocol mode)),
)

-- The other versions do not have the bit of TLSv1.2.
other_bit :
    (protocol n : ℕ) → (protocol == n) ≡ true → has n tlsv1_2 ≡ false → has protocol tlsv1_2 ≡ false
other_bit protocol n h k = subst (λ p. has p tlsv1_2 ≡ false) (sym ((==_iff protocol n).0 h)) k

no_bit :
    (has 8 tlsv1_2 ≡ false)
    × (has 4 tlsv1_2 ≡ false)
    × (has 2 tlsv1_2 ≡ false)
    × (has 1 tlsv1_2 ≡ false)
unfolding has
no_bit = (refl, refl, refl, refl)

highest-tlsv1_2 :
    (y z : Bool) (protocol mode : ℕ)
    → has protocol tlsv1_2 ≡ true
    → highest false y z protocol mode ≡ chosen (method (only tlsv1_2) (role mode))
unfolding highest
highest-tlsv1_2 y z protocol mode h = rw h refl

-- In a build before OpenSSL 1.1.0 with TLS 1 compiled in, every combination of protocols with the bit of
-- TLSv1.2 that is not exactly SSL_PROTOCOL_TLS or SSL_PROTOCOL_ALL of C is given a method of TLSv1.2
-- alone, also if it has the bits of all other versions, as SSL_PROTOCOL_TLS and SSL_PROTOCOL_ALL of Java
-- do, which have one bit more than those of C.
pub choose_method-tlsv1_2 :
    (no_ssl3 no_ssl2 : Bool) (protocol mode : ℕ)
    → has protocol tlsv1_2 ≡ true
    → protocol ≢ protocol_tls
    → protocol ≢ protocol_all
    → choose_method (legacy false no_ssl3 no_ssl2) protocol mode
      ≡ chosen (method (only tlsv1_2) (role mode))
unfolding choose_method switch_protocol
choose_method-tlsv1_2 y z protocol mode h k l = ground (
  arith,
  highest-tlsv1_2 y z protocol mode h,
  other_bit protocol 8,
  other_bit protocol 4,
  other_bit protocol 2,
  other_bit protocol 1,
  no_bit,
)
