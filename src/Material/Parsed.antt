-- ===== src/Material/Parsed.antt =====
-- What `parseX509Chain` gives and owns.
use netty_tcnative.Base.{ℕ, ◌+◌, ◌≡◌, List, [], ◌∷◌, Bool, true, false, ◌&&◌, length, if◌then◌else◌}
use netty_tcnative.Base.Jni.{returned, thrown, exception}
use netty_tcnative.Callbacks.{Library}
use netty_tcnative.Chain.{PemError, no_start_line, other}
use netty_tcnative.Material.{
  ParseState, ParseAnswers, made, Parse, Parsed, chain_of, complete, broken, free_x509_chain,
}

abbrev pub taken : Library → ParseAnswers → ℕ → Bool
taken library a x = made library a x && (a.new_stack && a.push x)

-- The oldest error is the end of the input.
abbrev pub at_end : List PemError → Bool
at_end [] = true
at_end (no_start_line ∷ es) = true
at_end (other ∷ es) = false

-- The names, headers and data that are live.
abbrev pub SameTexts : ParseState → ParseState → Type 0
SameTexts s t = (t.names ≡ s.names) × (t.headers ≡ s.headers) × (t.datas ≡ s.datas)

-- The loop, with the certificates that it owns: `k` were live before.
Reads : ℕ → Bool → List ℕ → List PemError → ParseState → Parse → Type 0
Reads k all whole es s (complete c t) =
    (all ≡ true)
    × (c ≡ whole)
    × (t.certs ≡ k + length c)
    × (t.stacks ≡ s.stacks)
    × (t.errors ≡ es)
    × SameTexts s t
Reads k all whole es s (broken c t) =
    (all ≡ false) × (t.certs ≡ k + length c) × (t.stacks ≡ s.stacks) × SameTexts s t

-- A call that succeeded gives the whole chain, which Java frees later (NULL, if there is no stack and
-- nothing to push); one that failed leaves nothing.
pub Parses : Bool → Bool → List ℕ → ParseState → Parsed → Type 0
Parses stack ok xs s r =
    (r.0 ≡ (if ok then returned (chain_of stack xs) else thrown exception))
    × ((if ok then free_x509_chain (chain_of stack xs) r.1 else r.1).stacks ≡ s.stacks)
    × ((if ok then free_x509_chain (chain_of stack xs) r.1 else r.1).certs ≡ s.certs)
    × SameTexts s r.1
