-- ===== src/Callbacks/Tests.antt =====
-- The theorems on callbacks at concrete contexts and answers.
use netty_tcnative.Base.{◌≡◌, Bool, true, false, none, some}
use netty_tcnative.Callbacks.{
  Slot, CallbackContext, boringssl, SetterAnswers, new_context, set_sni_hostname_matcher,
  add_certificate_compression_algorithm, set_verifier, context_cleanup,
}
use netty_tcnative.Callbacks.Owned.{IsSound, total}
use netty_tcnative.Callbacks.Cleanup.{
  made, sni_set, compression_added, verifier_set, context_cleanup-releases,
}

abbrev answers : SetterAnswers
answers = record {
  class_found = true;
  first_name = true;
  first_method = true;
  second_name = true;
  second_method = true;
  new_global_ref = true;
}

-- A matcher for server names, replaced by another, a zlib compression algorithm and a verifier.
abbrev context_3 : CallbackContext
context_3 =
    (set_verifier false (some 6) answers
      (add_certificate_compression_algorithm boringssl false true true 1 (some 9) true answers
        (set_sni_hostname_matcher false (some 8) answers
          (set_sni_hostname_matcher false (some 7) answers new_context).1).1).1).1

context_cleanup-releases_example :
    IsSound context_3
    × ((context_cleanup true context_3).global_refs ≡ 0)
    × ((context_cleanup false context_3).global_refs ≡ total context_3.slot)
    × ((has_env : Bool) (s : Slot) → (context_cleanup has_env context_3).slot s ≡ none)
context_cleanup-releases_example = context_cleanup-releases context_3 (
    verifier_set false (some 6) answers (
      compression_added boringssl false true true 1 (some 9) true answers
        (sni_set false (some 8) answers (sni_set false (some 7) answers made))))
