-- ===== src/Handshake/Tests.antt =====
-- The theorems on connections and their tasks at concrete connections.
use netty_tcnative.Base.{◌≡◌, refl, true, false, none, some, [], ◌∷◌}
use netty_tcnative.Base.Int.{pos}
use netty_tcnative.Verify.Certs.{get_certs, copy_certs}
use netty_tcnative.Verify.Callback.{Answers, VerifyState}
use netty_tcnative.Handshake.VerifySlot.{custom_verify_slot, slot_task}
use netty_tcnative.Handshake.{
  new_ssl, Connection, TaskAnswers, new_state, get_task, free_ssl, CertificateAnswers, KeyAnswers,
  store_new_task,
}
use netty_tcnative.Handshake.Account.{started, taken, finished, verify_asked, free_ssl-releases}
use netty_tcnative.Handshake.Owned.{IsOwned, java_done}

abbrev task_answers : TaskAnswers
task_answers = record { task_made = true; allocated = true; referenced = true }

abbrev certificate_answers : CertificateAnswers
certificate_answers = record {
  has_context = true;
  java_env = true;
  task_class = true;
  task = task_answers;
  threw = false;
  debug = true;
}

-- A peer with one certificate, whose verifier in Java runs as a task.
abbrev verify_answers : Answers
verify_answers = record {
  java_env = true;
  chain = some ((1 ∷ []) ∷ []);
  new_object_array = true;
  new_byte_array = λ n. true;
  auth_method_string = true;
  verify = λ certs. none;
  task_class = true;
  new_task = true;
  debug = true;
}

abbrev verify_state : VerifyState
verify_state = record {
  ssl_task = none;
  task_array_len = 0;
  task_chain_num = 0;
  has_verifier = true;
  use_tasks = true;
  verify_depth = 100;
}

-- A connection that waits for the verifier, and the same after Java has taken and run the task and the
-- callback was called again.
abbrev asked : Connection
asked = custom_verify_slot verify_answers task_answers true verify_state new_state

abbrev verified : Connection
verified =
    custom_verify_slot verify_answers task_answers true verify_state
      (java_done (pos 0) none (get_task asked).1)

free_ssl-releases_example :
    IsOwned verified
    × ((free_ssl verified).task_allocations ≡ 0)
    × ((free_ssl verified).task_refs ≡ 0)
unfolding new_ssl
free_ssl-releases_example = free_ssl-releases verified (
    verify_asked verify_answers task_answers true verify_state (
      finished (pos 0) none (
        taken
          (verify_asked verify_answers task_answers true verify_state (started true true 0 refl)))))

-- The call of the verification callback fills the slot.
asks : asked.task_allocations ≡ 1
unfolding custom_verify_slot slot_task store_new_task new_state get_certs copy_certs
asks = refl

abbrev key_answers : KeyAnswers
key_answers = record {
  has_method = true;
  java_env = true;
  new_byte_array = true;
  task_class = true;
  task = task_answers;
  elements = true;
}

-- A connection whose task is complete.
abbrev signed : Connection
signed = record {
  ssl_task = some (record {
    consumed = true;
    complete = true;
    return_value = pos 0;
    result_bytes = some (7 ∷ 8 ∷ []);
  });
  task_allocations = 1;
  task_refs = 1;
}
