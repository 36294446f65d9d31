-- ===== src/Credential.antt =====
-- The calls on an SSL_CREDENTIAL of BoringSSL: openssl-dynamic/src/main/c/sslcredential.c.
pub mod Setters
pub mod Prefs
mod Tests
use netty_tcnative.Base.{
  ℕ, ◌+◌, ◌-◌, ◌%◌, ◌^◌, List, [], ◌∷◌, map, Bool, true, false, Option, none, some, not,
  if◌then◌else◌, ◌==◌, length,
}
use netty_tcnative.Base.Int.{ℤ, pos, negsuc}
use netty_tcnative.Base.Jni.{
  Exception, Outcome, returned, thrown, exception, null_pointer, unsupported_operation,
}
use netty_tcnative.Callbacks.{Library, openssl, boringssl}

-- The values of an SSL_CREDENTIAL that are given as a byte array.
pub data Field : Type 0 where
  ocsp_response certificate_properties signed_cert_timestamp_list trust_anchor_id : Field
  delegated_credential : Field

-- Fields are compared by a number.
abbrev pub field_index : Field → ℕ
field_index ocsp_response = 0
field_index certificate_properties = 1
field_index signed_cert_timestamp_list = 2
field_index trust_anchor_id = 3
field_index delegated_credential = 4

-- What an SSL_CREDENTIAL has been given, the references to it, and what the calls own: CRYPTO_BUFFERs,
-- memory of OPENSSL_malloc, and pinned Java arrays.
pub record Credential : Type 0 where
  pub bytes : Field → Option (List ℕ)
  pub private_key : Option ℕ
  pub cert_chain : List ℕ
  pub signing_prefs : List ℕ
  pub must_match_issuer : Bool
  pub refs : ℕ
  pub buffers : ℕ
  pub allocations : ℕ
  pub pinned : ℕ

-- What the JNI and BoringSSL answer. `set1` is the SSL_CREDENTIAL_set1 function of the call.
pub record CredentialAnswers : Type 0 where
  pub get_elements : Bool
  pub new_buffer : Bool
  pub malloc : Bool
  pub set1 : Bool

abbrev pub Result : Type 0
Result = Outcome (Unit {0}) × Credential

abbrev pub with_field : Field → List ℕ → Credential → Credential
with_field f content c = record c {
  bytes = λ g. if field_index f == field_index g then some content else c.bytes g;
}

abbrev pub is_empty {ℓ} : {A : Type ℓ} → List A → Bool
is_empty [] = true
is_empty (x ∷ xs) = false

-- `SSLCredential.setOcspResponse`, `setCertificateProperties`, `setSignedCertTimestampList` and
-- `setDelegatedCredential`, which differ in the field only: the array is pinned, copied to a
-- CRYPTO_BUFFER, released; the buffer is given to BoringSSL, which takes its own reference, and freed.
pub set_by_buffer : Field → List ℕ → CredentialAnswers → Credential → Result
set_by_buffer f content a c =
    if is_empty content
    then (returned tt, c)
    else if not a.get_elements
    then (returned tt, c)
    else if not a.new_buffer
    then (thrown null_pointer, record c { pinned = c.pinned + 1 - 1 })
    else if not a.set1
    then (thrown exception, record c { pinned = c.pinned + 1 - 1; buffers = c.buffers + 1 - 1 })
    else (
      returned tt,
      record (with_field f content c) { pinned = c.pinned + 1 - 1; buffers = c.buffers + 1 - 1 },
    )

-- `SSLCredential.setTrustAnchorId`: the bytes are given to BoringSSL directly.
pub set_directly : Field → List ℕ → CredentialAnswers → Credential → Result
set_directly f content a c =
    if is_empty content
    then (returned tt, c)
    else if not a.get_elements
    then (returned tt, c)
    else if not a.set1
    then (thrown exception, record c { pinned = c.pinned + 1 - 1 })
    else (returned tt, record (with_field f content c) { pinned = c.pinned + 1 - 1 })

abbrev pub set_field : Field → List ℕ → CredentialAnswers → Credential → Result
set_field trust_anchor_id content a c = set_directly trust_anchor_id content a c
set_field ocsp_response content a c = set_by_buffer ocsp_response content a c
set_field certificate_properties content a c = set_by_buffer certificate_properties content a c
set_field signed_cert_timestamp_list content a c =
    set_by_buffer signed_cert_timestamp_list content a c
set_field delegated_credential content a c = set_by_buffer delegated_credential content a c

-- A setter of bytes with its checks: the library, the credential (`true` is NULL), the array (`none` is
-- NULL).
pub set_bytes : Library → Field → Bool → Option (List ℕ) → CredentialAnswers → Credential → Result
set_bytes openssl f null_cred content a c = (thrown unsupported_operation, c)
set_bytes boringssl f true content a c = (thrown null_pointer, c)
set_bytes boringssl f false none a c = (thrown null_pointer, c)
set_bytes boringssl f false (some content) a c = set_field f content a c

-- The cast `(uint16_t) x` of a `jint`.
abbrev pub uint16 : ℤ → ℕ
uint16 (pos n) = n % 2 ^ 16
uint16 (negsuc n) = 2 ^ 16 - 1 - n % 2 ^ 16

-- `SSLCredential.setSigningAlgorithmPrefs`.
pub set_prefs : List ℤ → CredentialAnswers → Credential → Result
set_prefs prefs a c =
    if is_empty prefs
    then (returned tt, c)
    else if not a.malloc
    then (thrown null_pointer, c)
    else if not a.get_elements
    then (returned tt, record c { allocations = c.allocations + 1 - 1 })
    else if not a.set1
    then (
      thrown exception,
      record c { allocations = c.allocations + 1 - 1; pinned = c.pinned + 1 - 1 },
    )
    else (
      returned tt,
      record c {
        signing_prefs = map uint16 prefs;
        allocations = c.allocations + 1 - 1;
        pinned = c.pinned + 1 - 1;
      },
    )

pub set_signing_algorithm_prefs :
    Library → Bool → Option (List ℤ) → CredentialAnswers → Credential → Result
set_signing_algorithm_prefs openssl null_cred prefs a c = (thrown unsupported_operation, c)
set_signing_algorithm_prefs boringssl true prefs a c = (thrown null_pointer, c)
set_signing_algorithm_prefs boringssl false none a c = (thrown null_pointer, c)
set_signing_algorithm_prefs boringssl false (some prefs) a c = set_prefs prefs a c

-- `SSLCredential.setCertChain`. The stack is given by its buffers, which the loop copies in order.
pub set_chain : List ℕ → CredentialAnswers → Credential → Result
set_chain stack a c =
    if is_empty stack
    then (thrown exception, c)
    else if not a.malloc
    then (thrown null_pointer, c)
    else if not a.set1
    then (thrown exception, record c { allocations = c.allocations + 1 - 1 })
    else (returned tt, record c { cert_chain = stack; allocations = c.allocations + 1 - 1 })

pub set_cert_chain : Library → Bool → Option (List ℕ) → CredentialAnswers → Credential → Result
set_cert_chain openssl null_cred stack a c = (thrown unsupported_operation, c)
set_cert_chain boringssl true stack a c = (thrown null_pointer, c)
set_cert_chain boringssl false none a c = (thrown null_pointer, c)
set_cert_chain boringssl false (some stack) a c = set_chain stack a c

-- `SSLCredential.setPrivateKey`.
pub set_private_key : Library → Bool → Option ℕ → CredentialAnswers → Credential → Result
set_private_key openssl null_cred key a c = (thrown unsupported_operation, c)
set_private_key boringssl true key a c = (thrown null_pointer, c)
set_private_key boringssl false none a c = (thrown null_pointer, c)
set_private_key boringssl false (some key) a c =
    if a.set1 then (returned tt, record c { private_key = some key }) else (thrown exception, c)

-- `SSLCredential.setMustMatchIssuer`.
pub set_must_match_issuer : Library → Bool → Bool → Credential → Result
set_must_match_issuer openssl null_cred must c = (thrown unsupported_operation, c)
set_must_match_issuer boringssl true must c = (thrown null_pointer, c)
set_must_match_issuer boringssl false must c = (returned tt, record c { must_match_issuer = must })

-- `SSLCredential.upRef` and `SSLCredential.free`.
pub up_ref : Library → Bool → Credential → Result
up_ref openssl null_cred c = (thrown unsupported_operation, c)
up_ref boringssl true c = (thrown null_pointer, c)
up_ref boringssl false c = (returned tt, record c { refs = c.refs + 1 })

pub credential_free : Library → Bool → Credential → Result
credential_free openssl null_cred c = (thrown unsupported_operation, c)
credential_free boringssl true c = (returned tt, c)
credential_free boringssl false c = (returned tt, record c { refs = c.refs - 1 })
