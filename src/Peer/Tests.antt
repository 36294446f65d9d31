-- ===== src/Peer/Tests.antt =====
-- The theorems on the peer at concrete chains and requests.
use netty_tcnative.Base.{◌≡◌, refl, [], ◌∷◌, true, false, none, some, not, ◌==◌}
use netty_tcnative.Callbacks.{openssl, boringssl}
use netty_tcnative.Chain.Result.{all_accepted}
use netty_tcnative.Material.Client.{ClientMaterial, ClientAnswers}
use netty_tcnative.Peer.{JavaState, ArrayAnswers, get_peer_cert_chain, cert_requested}
use netty_tcnative.Peer.Copies.{get_peer_cert_chain-libraries}
use netty_tcnative.Peer.Requested.{chooses, Requested, cert_requested-Requested}

abbrev arrays : ArrayAnswers
arrays = record {
  i2d = λ x. some (48 ∷ x ∷ []);
  buffer_bytes = λ x. 48 ∷ x ∷ [];
  new_array = λ n. true;
  new_bytes = λ bytes. true;
}

abbrev jvm : JavaState
jvm = record { local_refs = 2; buffers = 0 }

abbrev unasked : ClientMaterial
unasked = record { chain = []; cert_out = none; key_out = none; cert_refs = 0; key_refs = 0 }

-- OpenSSL refuses the certificate 6.
abbrev client : ClientAnswers
client = record { add1 = λ y. not (y == 6); up_ref_cert = true; up_ref_key = true }

get_peer_cert_chain-libraries_example :
    (get_peer_cert_chain openssl false true arrays (5 ∷ 6 ∷ []) jvm
      ≡ get_peer_cert_chain boringssl false true arrays (4 ∷ 5 ∷ 6 ∷ []) jvm)
    × (get_peer_cert_chain openssl false false arrays (5 ∷ 6 ∷ []) jvm
        ≡ get_peer_cert_chain boringssl false false arrays (5 ∷ 6 ∷ []) jvm)
get_peer_cert_chain-libraries_example =
    get_peer_cert_chain-libraries arrays 4 (5 ∷ 6 ∷ []) jvm (λ x. refl)

cert_requested-Requested_example :
    Requested true 4 7
      (cert_requested true arrays
        (1 ∷ 64 ∷ [])
        (some (9 ∷ []))
        (chooses client (4 ∷ 5 ∷ []) 7)
        unasked
        jvm).0
      (cert_requested true arrays
        (1 ∷ 64 ∷ [])
        (some (9 ∷ []))
        (chooses client (4 ∷ 5 ∷ []) 7)
        unasked
        jvm).1
unfolding all_accepted
cert_requested-Requested_example =
    cert_requested-Requested arrays (1 ∷ 64 ∷ []) (some (9 ∷ [])) client 4 7 (5 ∷ []) unasked jvm
      (λ n. refl, λ b. refl) refl refl (refl, refl)
