-- ===== src/Handshake.antt =====
-- The state of a connection and the task that it may wait for: `new_ssl_state`, `newSSL`, `getTask`
-- and `freeSSL` of openssl-dynamic/src/main/c/ssl.c; `tcn_ssl_task_new`, `tcn_ssl_task_free`,
-- `certificate_cb` and the private key method of sslcontext.c; VerifySlot has the task of
-- `tcn_SSL_cert_custom_verify`. `none` is undefined behaviour, or a TCN_ASSERT of a debug build that fails.
pub mod VerifySlot
pub mod Owned
pub mod Account
pub mod PrivateKey
pub mod Once
mod Tests
use netty_tcnative.Base.{
  ℕ, ◌+◌, ◌-◌, Bool, true, false, not, ◌&&◌, Option, none, some, List, length, ltb, if◌then◌else◌,
  ◌>>=◌, write_at,
}
use netty_tcnative.Base.Int.{ℤ, pos, negsuc, is_negative}
use netty_tcnative.Base.Jni.{Outcome, returned, thrown, null_pointer, exception}

-- `tcn_ssl_task_t`, with the fields of the Java task that the C code reads.
pub record SslTask : Type 0 where
  pub consumed : Bool
  pub complete : Bool
  pub return_value : ℤ
  pub result_bytes : Option (List ℕ)

-- The task slot of `tcn_ssl_state_t`, the live allocations of `tcn_ssl_task_t` and the live global
-- references to Java tasks.
pub record Connection : Type 0 where
  pub ssl_task : Option SslTask
  pub task_allocations : ℕ
  pub task_refs : ℕ

-- The answers to `tcn_ssl_task_new`: NewObject gave a task, OPENSSL_malloc, NewGlobalRef.
pub record TaskAnswers : Type 0 where
  pub task_made : Bool
  pub allocated : Bool
  pub referenced : Bool

-- `state->ssl_task = tcn_ssl_task_new(e, task)`: the slot is overwritten, also by NULL.
pub store_new_task : TaskAnswers → Connection → Connection
store_new_task a c =
    if not a.task_made
    then record c { ssl_task = none }
    else if not a.allocated
    then record c { ssl_task = none }
    else if not a.referenced
    then record c { ssl_task = none }
    else record {
      ssl_task = some (record {
        consumed = false;
        complete = false;
        return_value = pos 0;
        result_bytes = none;
      });
      task_allocations = c.task_allocations + 1;
      task_refs = c.task_refs + 1;
    }

-- The slot is not NULL.
abbrev pub occupied : Option SslTask → Bool
occupied none = false
occupied (some t) = true

-- `tcn_ssl_task_free(e, state->ssl_task); state->ssl_task = NULL;`
pub free_task : Connection → Connection
free_task c =
    if occupied c.ssl_task
    then record {
      ssl_task = none;
      task_allocations = c.task_allocations - 1;
      task_refs = c.task_refs - 1;
    }
    else c

-- A state that `new_ssl_state` has zeroed.
pub new_state : Connection
new_state = record { ssl_task = none; task_allocations = 0; task_refs = 0 }

-- `newSSL`, with `new_ssl_state` in it. The flags say whether SSL_new and OPENSSL_malloc succeed; the
-- number is that of the SSL objects that are live afterwards.
unfoldable pub new_ssl : Bool → Bool → Bool → ℕ → Outcome Connection × ℕ
new_ssl ctx_is_null ssl_made state_allocated live =
    if ctx_is_null
    then (thrown null_pointer, live)
    else if not ssl_made
    then (thrown exception, live)
    else if not state_allocated
    then (thrown exception, live + 1 - 1)
    else (returned new_state, live + 1)

-- `SSL.getTask` of an SSL with a state: the task that goes to Java, if any.
pub take_task : Option SslTask → Connection → Option SslTask × Connection
take_task none c = (none, c)
take_task (some t) c =
    if t.consumed
    then (none, c)
    else (some t, record c { ssl_task = some (record t { consumed = true }) })

pub get_task : Connection → Option SslTask × Connection
unfolding take_task
get_task c = take_task c.ssl_task c

-- `freeSSL` and `free_ssl_state` of an SSL with a state.
pub free_ssl : Connection → Connection
unfolding free_task
free_ssl c = free_task c

-- What the JNI answers to `certificate_cb`, and whether the build has assertions.
pub record CertificateAnswers : Type 0 where
  pub has_context : Bool
  pub java_env : Bool
  pub task_class : Bool
  pub task : TaskAnswers
  pub threw : Bool
  pub debug : Bool

-- `certificate_cb` when there is no task: a new one with tasks on, else the Java callback.
pub request_certificate : CertificateAnswers → Bool → Connection → ℤ × Connection
unfolding store_new_task
request_certificate a use_tasks c =
    let d : Connection = store_new_task a.task c in
    if use_tasks
    then (if not a.task_class
        then (pos 0, c)
        else if occupied d.ssl_task
        then (negsuc 0, d)
        else (pos 0, d))
    else (if a.threw then pos 0 else pos 1, c)

pub certificate_task :
    CertificateAnswers → Bool → Option SslTask → Connection → Option (ℤ × Connection)
unfolding free_task
certificate_task a use_tasks none c = some (request_certificate a use_tasks c)
certificate_task a use_tasks (some t) c =
    if not t.complete
    then some (negsuc 0, c)
    else if is_negative t.return_value && a.debug
    then none
    else some (t.return_value, free_task c)

-- `certificate_cb`: 1 goes on, 0 fails the handshake, -1 suspends it.
pub certificate_cb : CertificateAnswers → Bool → Connection → Option (ℤ × Connection)
unfolding certificate_task
certificate_cb a use_tasks c =
    if not a.has_context
    then some (pos 0, c)
    else if not a.java_env
    then some (pos 0, c)
    else certificate_task a use_tasks c.ssl_task c

-- ssl_private_key_success with a new `*out_len` or with the old one, ssl_private_key_retry,
-- ssl_private_key_failure.
pub data KeyResult : Type 0 where
  success : ℕ → KeyResult
  success_as_is retry failure : KeyResult

-- What the JNI answers to a call of the private key method.
pub record KeyAnswers : Type 0 where
  pub has_method : Bool
  pub java_env : Bool
  pub new_byte_array : Bool
  pub task_class : Bool
  pub task : TaskAnswers
  pub elements : Bool

-- Copying the Java array into `out`, an object of `max_out` bytes.
pub copy_out : Bool → List ℕ → List ℕ → Option (KeyResult × List ℕ)
copy_out elements result out =
    if ltb (length out) (length result)
    then some (failure, out)
    else if not elements
    then some (failure, out)
    else (write_at out 0 result >>= λ written. some (success (length result), written))

-- With tasks on: the slot is filled, whatever it held.
pub start_key_task : KeyAnswers → List ℕ → Connection → KeyResult × List ℕ × Connection
unfolding store_new_task
start_key_task a out c =
    let d : Connection = store_new_task a.task c in
    if not a.task_class
    then (failure, out, c)
    else if occupied d.ssl_task
    then (retry, out, d)
    else (failure, out, d)

-- `tcn_private_key_sign_java`, and `tcn_private_key_decrypt_java` with the other Java method. With tasks
-- off the method is called by CallObjectMethod and without a ResultCallback, although it was looked up as a
-- void method with one: what that does is undefined.
unfoldable pub private_key_java :
    KeyAnswers → Bool → List ℕ → Connection → Option (KeyResult × List ℕ × Connection)
unfolding start_key_task
private_key_java a use_tasks out c =
    if not a.has_method
    then some (failure, out, c)
    else if not a.java_env
    then some (failure, out, c)
    else if not a.new_byte_array
    then some (failure, out, c)
    else if use_tasks
    then some (start_key_task a out c)
    else none

-- The end of `tcn_private_key_complete_java`, for a complete task.
pub collect :
    Bool → Option (List ℕ) → List ℕ → Connection → Option (KeyResult × List ℕ × Connection)
collect elements none out c = some (failure, out, c)
collect elements (some result) out c =
    copy_out elements result out >>= λ (answer, written). some (answer, written, c)

pub complete_task :
    KeyAnswers → Option SslTask → List ℕ → Connection → Option (KeyResult × List ℕ × Connection)
unfolding collect free_task
complete_task a none out c = some (failure, out, c)
complete_task a (some t) out c =
    if not a.java_env
    then some (failure, out, c)
    else if not t.complete
    then some (retry, out, c)
    else collect a.elements t.result_bytes out (free_task c)

-- `tcn_private_key_complete_java`. With tasks off nothing is written.
pub private_key_complete_java :
    KeyAnswers → Bool → Bool → List ℕ → Connection → Option (KeyResult × List ℕ × Connection)
unfolding complete_task
private_key_complete_java a has_context use_tasks out c =
    if not has_context
    then some (failure, out, c)
    else if not use_tasks
    then some (success_as_is, out, c)
    else complete_task a c.ssl_task out c
