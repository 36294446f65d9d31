-- ===== src/Context/Tests.antt =====
-- The theorems on contexts at concrete builds and protocols.
use netty_tcnative.Base.{ℕ, ◌≡◌, refl, true, false, none, some, not, ◌&&◌}
use netty_tcnative.Base.Jni.{Outcome}
use netty_tcnative.Context.{
  Version, Role, method, only, has, legacy, buffers, NewContext, chosen, choose_method,
  make_options, ContextHeap, MakeAnswers, make,
}
use netty_tcnative.Context.Protocols.{in_c, disables, make_options-versions}
use netty_tcnative.Context.Life.{Makes, make-Makes}

-- SSL_PROTOCOL_TLS of Java.
abbrev java_tls : ℕ
java_tls = 62

abbrev answers : MakeAnswers
answers = record { ctx_new = true; pool_create = true; pcalloc = true; rwlock_create = true }

abbrev heap : ContextHeap
heap = record { ssl_ctxs = 1; pools = 1; locks = 1 }

abbrev no_ctx : MakeAnswers
no_ctx = record answers { ctx_new = false }

make-Makes_example :
    ((r : Outcome NewContext × ContextHeap) × (make buffers true java_tls 1 answers heap ≡ some r)
      × Makes buffers true (choose_method buffers java_tls 1) java_tls 1 heap r)
    × (make buffers true java_tls 1 no_ctx heap ≡ none)
make-Makes_example = make-Makes buffers true java_tls 1 answers no_ctx heap refl refl

make_options-versions_example :
    ((v : Version) → disables (make_options true 24) v ≡ (in_c v && not (has 24 v)))
    × ((v : Version) (r : Role)
        → choose_method (legacy false true true) 24 0 ≡ chosen (method (only v) r)
        → disables (make_options true 24) v ≡ false)
make_options-versions_example = make_options-versions (legacy false true true) true 24 0
