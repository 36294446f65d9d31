-- ===== src/Material.antt =====
-- Key material that Java parses once and sets on connections: `parseX509Chain`, `freeX509Chain`,
-- `setKeyMaterial` and `setKeyMaterialClientSide` (Client) of openssl-dynamic/src/main/c/ssl.c.
pub mod Client
pub mod Parsed
pub mod Installed
mod Tests
use netty_tcnative.Base.{
  ℕ, ◌+◌, ◌-◌, List, [], ◌∷◌, ◌++◌, Bool, true, false, Option, none, some, not, ◌||◌, ◌&&◌,
  if◌then◌else◌, length,
}
use netty_tcnative.Base.Jni.{Outcome, returned, thrown, exception, null_pointer}
use netty_tcnative.Callbacks.{Library, openssl, boringssl}
use netty_tcnative.Chain.{PemError, no_start_line, other}

-- The error queue from its oldest error, and the live stacks and certificates (X509 objects or
-- CRYPTO_BUFFERs) that parsing has made, with the names, headers and data of PEM_read_bio.
pub record ParseState : Type 0 where
  pub errors : List PemError
  pub stacks : ℕ
  pub certs : ℕ
  pub names : ℕ
  pub headers : ℕ
  pub datas : ℕ

-- sk_X509_new_null or sk_CRYPTO_BUFFER_new_null, CRYPTO_BUFFER_new, and the push on a stack. A push on
-- NULL fails.
pub record ParseAnswers : Type 0 where
  pub new_stack : Bool
  pub new_buffer : ℕ → Bool
  pub push : ℕ → Bool

-- Whether a certificate that was read is an object of its own: always in OpenSSL.
abbrev pub made : Library → ParseAnswers → ℕ → Bool
made openssl a x = true
made boringssl a x = a.new_buffer x

pub data Parse : Type 0 where
  complete : List ℕ → ParseState → Parse
  broken : List ℕ → ParseState → Parse

-- A certificate that was read: PEM_read_bio_X509 makes the X509; PEM_read_bio makes a name, a header and
-- data, which are freed once the CRYPTO_BUFFER is made.
abbrev pub pem_read : Library → ParseState → ParseState
pem_read openssl s = s
pem_read boringssl s = record s {
  names = s.names + 1;
  headers = s.headers + 1;
  datas = s.datas + 1;
}

abbrev pub pem_freed : Library → ParseState → ParseState
pem_freed openssl s = s
pem_freed boringssl s = record s {
  names = s.names - 1;
  headers = s.headers - 1;
  datas = s.datas - 1;
}

-- The loop. A certificate that cannot be pushed is freed.
pub read_chain : Library → ParseAnswers → List ℕ → PemError → List ℕ → ParseState → Parse
read_chain library a [] e chain s = complete chain (record s { errors = s.errors ++ (e ∷ []) })
read_chain library a (x ∷ xs) e chain s =
    let t = pem_freed library (pem_read library s) in
    let rest = read_chain library a xs e (chain ++ (x ∷ [])) (record t { certs = t.certs + 1 }) in
    if not (made library a x)
    then broken chain t
    else if not (a.new_stack && a.push x)
    then broken chain (record t { certs = t.certs + 1 - 1 })
    else rest

-- A stack is made or not.
abbrev pub counted : Bool → ℕ
counted false = 0
counted true = 1

-- The stack of a chain, if there is one, with its certificates.
abbrev pub pop_free : Bool → List ℕ → ParseState → ParseState
pop_free stack chain s = record s {
  stacks = s.stacks - counted stack;
  certs = s.certs - length chain;
}

-- A `jlong` that points to a chain; `none` is 0.
abbrev pub chain_of : Bool → List ℕ → Option (List ℕ)
chain_of stack chain = if stack then some chain else none

-- `freeX509Chain`: NULL is accepted.
pub free_x509_chain : Option (List ℕ) → ParseState → ParseState
free_x509_chain none s = s
free_x509_chain (some chain) s = pop_free true chain s

abbrev pub Parsed : Type 0
Parsed = Outcome (Option (List ℕ)) × ParseState

-- `cleanup`: the errors are cleared, the stack is freed.
abbrev pub give_up : Bool → List ℕ → ParseState → Parsed
give_up stack chain s = (thrown exception, pop_free stack chain (record s { errors = [] }))

-- "Ensure that if we have an error its just for EOL."
pub end_of_chain : Bool → List PemError → List ℕ → ParseState → Parsed
end_of_chain stack [] chain s = (returned (chain_of stack chain), s)
end_of_chain stack (no_start_line ∷ es) chain s =
    (returned (chain_of stack chain), record s { errors = [] })
end_of_chain stack (other ∷ es) chain s = give_up stack chain s

pub after_loop : Bool → Parse → Parsed
after_loop stack (complete chain s) = end_of_chain stack s.errors chain s
after_loop stack (broken chain s) = give_up stack chain s

abbrev pub stack_made : Bool → ParseState → ParseState
stack_made stack s = record s { stacks = s.stacks + counted stack }

-- `parseX509Chain` of a BIO (`true` is NULL) with the certificates `xs`, after which reading fails with
-- `e`. In BoringSSL builds the stack is made before the check of the BIO.
pub parse_x509_chain : Library → Bool → ParseAnswers → List ℕ → PemError → ParseState → Parsed
parse_x509_chain openssl true a xs e s = (thrown null_pointer, s)
parse_x509_chain boringssl true a xs e s = (thrown null_pointer, stack_made a.new_stack s)
parse_x509_chain library false a xs e s =
    after_loop a.new_stack (read_chain library a xs e [] (stack_made a.new_stack s))

-- What a connection presents, and the array of `setKeyMaterial` in BoringSSL builds.
pub record Presented : Type 0 where
  pub leaf : Option ℕ
  pub key : Option ℕ
  pub chain : List ℕ
  pub arrays : ℕ

-- SSL_use_certificate, and whether it keeps the private key that is there (OpenSSL drops a key that does
-- not match the new certificate); SSL_use_PrivateKey, SSL_check_private_key, SSL_clear_chain_certs,
-- tcn_SSL_add1_chain_cert; in BoringSSL builds OPENSSL_malloc and SSL_set_chain_and_key.
pub record MaterialAnswers : Type 0 where
  pub use_certificate : ℕ → Bool
  pub keeps_key : ℕ → Bool
  pub use_private_key : Bool
  pub check_private_key : Bool
  pub clear_chain : Bool
  pub add1 : ℕ → Bool
  pub malloc : Bool
  pub set_chain_and_key : Bool

abbrev pub Done : Type 0
Done = Outcome (Unit {0}) × Presented

abbrev pub fails : Presented → Done
fails p = (thrown exception, p)

-- The loop over the certificates after the first. `refused` is whether an exception is pending from the
-- first one.
pub add_chain : MaterialAnswers → Bool → List ℕ → Presented → Done
add_chain a refused [] p = if refused then fails p else (returned tt, p)
add_chain a refused (x ∷ xs) p =
    let rest = add_chain a refused xs (record p { chain = p.chain ++ (x ∷ []) }) in
    if a.add1 x then rest else fails p

abbrev pub clear_and_add : MaterialAnswers → Bool → List ℕ → Presented → Done
clear_and_add a refused xs p =
    if a.clear_chain then add_chain a refused xs (record p { chain = [] }) else fails p

pub use_key : MaterialAnswers → Bool → Option ℕ → List ℕ → Presented → Done
use_key a refused none xs p = clear_and_add a refused xs p
use_key a refused (some k) xs p =
    if not a.use_private_key
    then fails p
    else if not a.check_private_key
    then fails (record p { key = some k })
    else clear_and_add a refused xs (record p { key = some k })

-- A new leaf.
abbrev pub with_leaf : MaterialAnswers → ℕ → Presented → Presented
with_leaf a x p = record p { leaf = some x; key = if a.keeps_key x then p.key else none }

-- `setKeyMaterial` of OpenSSL. After the exception for the first certificate it goes on.
pub set_key_material_openssl : MaterialAnswers → List ℕ → Option ℕ → Presented → Done
set_key_material_openssl a [] key p = use_key a true key [] p
set_key_material_openssl a (x ∷ xs) key p =
    if a.use_certificate x
    then use_key a false key xs (with_leaf a x p)
    else use_key a true key xs p

abbrev pub present : List ℕ → Option ℕ → Presented → Presented
present [] key p = p
present (x ∷ xs) key p = record p { leaf = some x; key = key; chain = xs }

abbrev pub has_certs : List ℕ → Bool
has_certs [] = false
has_certs (x ∷ xs) = true

-- `setKeyMaterial` of BoringSSL, whose SSL_set_chain_and_key sets all or nothing. Without a key the
-- private key method is set.
pub set_key_material_boringssl : MaterialAnswers → List ℕ → Option ℕ → Presented → Done
set_key_material_boringssl a chain key p =
    if not a.malloc
    then fails p
    else if has_certs chain && a.set_chain_and_key
    then (returned tt, record (present chain key p) { arrays = p.arrays + 1 - 1 })
    else fails (record p { arrays = p.arrays + 1 - 1 })

-- `setKeyMaterial`: the SSL (`true` is NULL), the chain (`none` is NULL), the key (`none` is NULL).
pub set_key_material :
    Library → Bool → Option (List ℕ) → Option ℕ → MaterialAnswers → Presented → Done
set_key_material library true chain key a p = (thrown null_pointer, p)
set_key_material library false none key a p = (thrown null_pointer, p)
set_key_material openssl false (some chain) key a p = set_key_material_openssl a chain key p
set_key_material boringssl false (some chain) key a p = set_key_material_boringssl a chain key p
