-- ===== src/Handshake/VerifySlot.antt =====
-- The task slot of a connection in `tcn_SSL_cert_custom_verify` of
-- openssl-dynamic/src/main/c/sslcontext.c, with its allocations and references. What the call returns is
-- in Verify.Callback.
pub mod Agree
use netty_tcnative.Base.{
  ℕ, ◌≡◌, refl, ap, Bool, true, false, not, ◌&&◌, Option, none, some, List, if◌then◌else◌, arith,
  Bool-cases, inl, inr,
}
use netty_tcnative.Handshake.{SslTask, Connection, TaskAnswers, store_new_task, free_task}
use netty_tcnative.Verify.Certs.{get_certs}
use netty_tcnative.Verify.Callback.{Answers, VerifyState}

abbrev pub got : Option (List (List ℕ)) → Bool
got none = false
got (some certs) = true

-- The conditions of a call that finds no task, from the chain to the verifier.
abbrev pub chain_got : Answers → ℕ → Option (List (List ℕ)) → Bool
chain_got a depth none = false
chain_got a depth (some sk) = got (get_certs depth sk a.new_object_array a.new_byte_array)

abbrev pub asks_java : Answers → VerifyState → Bool
asks_java a s = chain_got a s.verify_depth a.chain && (a.auth_method_string && s.has_verifier)

-- The callback when there is a task, and when there is none.
unfoldable pub slot_task :
    Answers → TaskAnswers → VerifyState → Option SslTask → Connection → Connection
unfolding store_new_task free_task
slot_task a b s none c =
    let d : Connection = store_new_task b c in
    if not (asks_java a s)
    then c
    else if not s.use_tasks
    then c
    else if not a.task_class
    then c
    else d
slot_task a b s (some t) c = if not t.complete then c else free_task c

-- `tcn_SSL_cert_custom_verify` on the slot.
unfoldable pub custom_verify_slot :
    Answers → TaskAnswers → Bool → VerifyState → Connection → Connection
unfolding slot_task
custom_verify_slot a b has_context s c =
    if not has_context then c else if not a.java_env then c else slot_task a b s c.ssl_task c
