-- ===== src/Base/Jni.antt =====
-- What a JNI call gives back to Java: a value, or an exception of one of the classes of error.c.

pub data Exception : Type 0 where
  exception null_pointer illegal_argument unsupported_operation out_of_memory : Exception

pub data Outcome {ℓ} (A : Type ℓ) : Type ℓ where
  returned : A → Outcome A
  thrown : Exception → Outcome A
