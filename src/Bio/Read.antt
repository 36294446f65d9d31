-- ===== src/Bio/Read.antt =====
-- `tcn_read_from_bytebuffer`, one read after the other.
use netty_tcnative.Base.{
  ℕ, zero, suc, ◌+◌, ◌-◌, ◌≤◌, ◌<◌, ◌≢◌, ◌↔◌, min, ◌≡◌, refl, ap, ◌∙◌, true, false, append-nil, [],
  ◌∷◌, ◌||◌, leb, leb→le, not-leb→lt, ◌++◌, arith, ◌==◌, Bool-cases, inl, inr,
}
use netty_tcnative.Base.Int.{ℤ, pos}
use netty_tcnative.Bio.{
  ByteBufferBio, Memory, load, bytebuffer_read, read_from_bytebuffer, no_retry, retry_read,
}

load-append : (m : Memory) (a j k : ℕ) → load m a j ++ load m (a + j) k ≡ load m a (j + k)
load-append m a zero k =
    ap (λ x. load m x k) {x = a + 0} (omega arith) ∙ ap (load m a) {x = k} (omega arith)
load-append m a (suc j) k =
    ap (◌∷◌ (m a)) (
      ap (λ x. load m (suc a) j ++ load m x k) {x = a + suc j} (omega arith)
      ∙ load-append m (suc a) j k)
    ∙ ap (load m a) {x = suc (j + k)} (omega arith)

-- The BIO after `n` bytes were read from the ByteBuffer.
abbrev after_read : ByteBufferBio → ℕ → ByteBufferBio
after_read b n = record b {
  retry = no_retry;
  buffer = b.buffer + n;
  buffer_length = b.buffer_length - n;
}

read_ready :
    (b : ByteBufferBio) (j : ℕ)
    → b.buffer_is_ssl_write_sink ≡ false
    → b.buffer ≢ 0
    → b.buffer_length ≢ 0
    → bytebuffer_read b false (pos (suc j)) ≡ (
      pos (min b.buffer_length (suc j)),
      load b.memory b.buffer (min b.buffer_length (suc j)),
      after_read b (min b.buffer_length (suc j)),
    )
unfolding bytebuffer_read read_from_bytebuffer
read_ready b j reading attached more = rw (reading, ready, positive) refl
  where
    ready : (b.buffer == 0 || b.buffer_length == 0) ≡ false
    ready = ground arith

    positive : (suc j == 0) ≡ false
    positive = ground arith

read_empty :
    (b : ByteBufferBio) (j : ℕ)
    → b.buffer_is_ssl_write_sink ≡ false
    → b.buffer_length ≡ 0
    → bytebuffer_read b false (pos (suc j)) ≡ (ℤ.negsuc 0, [], record b { retry = retry_read })
unfolding bytebuffer_read read_from_bytebuffer
read_empty b j reading empty = rw (reading, ready, positive) refl
  where
    ready : (b.buffer == 0 || b.buffer_length == 0) ≡ true
    ready = ground arith

    positive : (suc j == 0) ≡ false
    positive = ground arith

-- Two reads in a row from a ByteBuffer that is attached for reading deliver, one after the other,
-- the bytes that one read of the sum would deliver, and leave the rest of the ByteBuffer; the second
-- returns -1 with the retry flag of a read exactly when the first emptied the ByteBuffer.
pub bytebuffer_read_twice :
    (b : ByteBufferBio) (j k : ℕ)
    → b.buffer_is_ssl_write_sink ≡ false
    → b.buffer ≢ 0
    → b.buffer_length ≢ 0
    → let (r, first, c) = bytebuffer_read b false (pos (suc j)) in
      let (s, second, d) = bytebuffer_read c false (pos (suc k)) in
      (first ++ second ≡ load b.memory b.buffer (min b.buffer_length (suc j + suc k)))
      × (d.buffer_length ≡ b.buffer_length - (suc j + suc k))
      × ((s ≡ ℤ.negsuc 0) ↔ (b.buffer_length ≤ suc j))
bytebuffer_read_twice b j k reading attached more =
    elim (Bool-cases (leb b.buffer_length (suc j))) [
      | inl h ↦
          let le : b.buffer_length ≤ suc j = leb→le _ _ h in
          let gone : (after_read b n).buffer_length ≡ 0 = omega arith in
          rw (read_ready b j reading attached more, read_empty (after_read b n) k reading gone)
            (
              append-nil _ ∙ ap (load b.memory b.buffer) {x = n} (omega arith),
              omega arith,
              (λ _. le, λ _. refl),
            )
      | inr h ↦
          let lt : suc j < b.buffer_length = not-leb→lt _ _ h in
          let kept : (after_read b n).buffer_length ≢ 0 = omega arith in
          let moved : (after_read b n).buffer ≢ 0 = omega arith in
          rw
            (read_ready b j reading attached more, read_ready (after_read b n) k reading moved kept)
            (
              load-append b.memory b.buffer n (min (b.buffer_length - n) (suc k))
                  ∙ ap (load b.memory b.buffer) {x = n + min (b.buffer_length - n) (suc k)}
                      (omega arith),
              omega arith,
              (λ e. absurd (ne e), λ le. absurd (omega arith)),
            )
    ]
  where
    n : ℕ
    n = min b.buffer_length (suc j)

    ne : {x : ℕ} → pos x ≡ ℤ.negsuc 0 → ⊥
    ne e = cc
