-- ===== src/Peer/Copies.antt =====
-- The certificates that `getPeerCertChain` shows.
use netty_tcnative.Base.{
  ℕ, ◌+◌, ◌-◌, ◌≡◌, refl, ap, fun_ext, ◌∙◌, List, [], ◌∷◌, ◌++◌, true, false, none, some, arith,
  if◌then◌else◌, length,
}
use netty_tcnative.Base.Jni.{returned}
use netty_tcnative.Callbacks.{openssl, boringssl}
use netty_tcnative.Peer.{
  JavaState, ArrayAnswers, encode, copy_one, copy_all, copy_stack, get_peer_cert_chain, element_set,
  buffer_made, buffer_freed,
}

back : (n : ℕ) → n + 1 - 1 ≡ n
back n = omega arith

-- A buffer that was made and freed leaves the state as it was.
freed-made : (s : JavaState) → buffer_freed openssl (buffer_made openssl s) ≡ s
freed-made s = ap (λ n. record s { buffers = n }) (back s.buffers)

copy_all-libraries :
    (a : ArrayAnswers) (xs : List ℕ) (copied : List (List ℕ)) (s : JavaState)
    → ((x : ℕ) → a.i2d x ≡ some (a.buffer_bytes x))
    → copy_all openssl a xs copied s ≡ copy_all boringssl a xs copied s
unfolding copy_all encode
copy_all-libraries a [] copied s h = refl
copy_all-libraries a (x ∷ xs) copied s h =
    ap
      (λ t.
        copy_one a (a.i2d x) s t
          (λ bytes. copy_all openssl a xs (copied ++ (bytes ∷ [])) (element_set t)))
      (freed-made s)
    ∙ ap
        (λ e.
          copy_one a e s s
            (λ bytes. copy_all openssl a xs (copied ++ (bytes ∷ [])) (element_set s)))
        (h x)
    ∙ ap (copy_one a (some (a.buffer_bytes x)) s s)
        (fun_ext (λ bytes. copy_all-libraries a xs (copied ++ (bytes ∷ [])) (element_set s) h))

copy_stack-libraries :
    (a : ArrayAnswers) (xs : List ℕ) (s : JavaState)
    → ((x : ℕ) → a.i2d x ≡ some (a.buffer_bytes x))
    → copy_stack openssl a xs s ≡ copy_stack boringssl a xs s
unfolding copy_stack
copy_stack-libraries a [] s h = refl
copy_stack-libraries a (x ∷ xs) s h =
    ap (λ r. if a.new_array (length (x ∷ xs)) then r else (none, s))
      (copy_all-libraries a (x ∷ xs) [] (record s { local_refs = s.local_refs + 1 }) h)

-- When i2d gives the bytes that the buffers of BoringSSL hold, getPeerCertChain of a BoringSSL server,
-- whose stack begins with the leaf, has the effect and the value of getPeerCertChain of an OpenSSL
-- server, whose stack has no leaf, whatever the JVM can allocate; for clients the two libraries agree on
-- the same stack.
pub get_peer_cert_chain-libraries :
    (a : ArrayAnswers) (leaf : ℕ) (chain : List ℕ) (s : JavaState)
    → ((x : ℕ) → a.i2d x ≡ some (a.buffer_bytes x))
    → (get_peer_cert_chain openssl false true a chain s
        ≡ get_peer_cert_chain boringssl false true a (leaf ∷ chain) s)
      × (get_peer_cert_chain openssl false false a chain s
          ≡ get_peer_cert_chain boringssl false false a chain s)
unfolding get_peer_cert_chain
get_peer_cert_chain-libraries a leaf chain s h =
    let same = ap (λ r. (returned r.0, r.1)) (copy_stack-libraries a chain s h) in (same, same)
