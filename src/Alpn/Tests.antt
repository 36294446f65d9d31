-- ===== src/Alpn/Tests.antt =====
-- The theorems on protocol selection at concrete lists.
use netty_tcnative.Base.{ℕ, ◌≡◌, ◌≢◌, refl, true, false, none, some, List, [], ◌∷◌, ◌++◌}
use netty_tcnative.Base.Int.{pos}
use netty_tcnative.Base.Jni.{Outcome}
use netty_tcnative.Alpn.{
  Selection, selected, select_next_proto, select_loop, no_advertise, choose_my_last_protocol,
}
use netty_tcnative.Alpn.Wire.{encode}
use netty_tcnative.Alpn.Select.{select_next_proto-common, select_next_proto-no_common}
use netty_tcnative.Alpn.Totality.{SelectedIn, no_name, name, select_next_proto-ends}
use netty_tcnative.Alpn.Config.{
  ProtocolConfig, new_config, set_alpn_protos, callback_alpn_select_proto,
  callback_select_next_proto,
}
use netty_tcnative.Alpn.Config.Reach.{Configured, made, alpn_set, callback-SelectedIn}

-- "h2" and "h3" against "h1" and "h3".
abbrev h1 : List ℕ
h1 = 104 ∷ 49 ∷ []

abbrev h2 : List ℕ
h2 = 104 ∷ 50 ∷ []

abbrev h3 : List ℕ
h3 = 104 ∷ 51 ∷ []

abbrev ours : List (List ℕ)
ours = h2 ∷ h3 ∷ []

abbrev theirs : List (List ℕ)
theirs = h1 ∷ h3 ∷ []

select_next_proto-common_example :
    (rest : List ℕ) × (select_next_proto (encode theirs) (encode ours) 6 no_advertise
      ≡ selected (h3 ++ rest) 2)
select_next_proto-common_example = select_next_proto-common ours theirs no_advertise h3 refl

select_next_proto-no_common_example :
    select_next_proto (encode (h1 ∷ [])) (encode ours) 6 choose_my_last_protocol
    ≡ Selection.overread
select_next_proto-no_common_example =
    select_next_proto-no_common ours (h1 ∷ []) choose_my_last_protocol (λ e. cc) refl

select_next_proto-ends_example :
    (select_loop 7 0 6 (encode ours) none (9 ∷ 1 ∷ []) choose_my_last_protocol
      ≢ Selection.exhausted)
    × (select_next_proto (9 ∷ 1 ∷ []) (encode ours) 6 choose_my_last_protocol ≢ Selection.exhausted)
select_next_proto-ends_example =
    select_next_proto-ends (9 ∷ 1 ∷ []) (encode ours) 6 choose_my_last_protocol
      (name 1 (104 ∷ 50 ∷ 2 ∷ 104 ∷ 51 ∷ []) (name 1 (104 ∷ 51 ∷ []) no_name))

-- A server context (SSL_MODE_SERVER is 1) that is asked for the fallback.
abbrev server : ProtocolConfig
server = (set_alpn_protos false (λ n. true) (some (encode ours)) (pos 1) (new_config 1)).1

server-Configured : Configured server
server-Configured = alpn_set false (λ n. true) (some (encode ours)) (pos 1) (made 1)

callback-SelectedIn_example :
    SelectedIn (encode theirs) (callback_alpn_select_proto server (encode theirs))
    × SelectedIn (encode theirs) (callback_select_next_proto server (encode theirs))
callback-SelectedIn_example = callback-SelectedIn server (encode theirs) server-Configured

-- That context after a second call whose allocation fails.
abbrev failed : Outcome (Unit {0}) × ProtocolConfig
failed = set_alpn_protos false (λ n. false) (some (encode ours)) (pos 0) server
