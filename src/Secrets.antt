-- ===== src/Secrets.antt =====
-- internal/adapters/secrets/envkek: secrets in envelopes. Each is encrypted with a key of its own, and that
-- key with the key of the gateway. AES-GCM of package cipher, random bytes and base64 are given.
pub mod Envelope
mod Tests
use cloud_lab_gateway.Common.{
  ℕ, ◌≡◌, Bool, true, false, not, ◌&&◌, ◌||◌, Option, none, some, List, [], ◌∷◌, String, ◌⧺◌,
  if◌then◌else◌, ◌==◌, ltb, str_eq, length,
}
use cloud_lab_gateway.Common.Maps.{get, put, delete, nat_keys}
use cloud_lab_gateway.Shared.{SecretId, Time, Err, Sentinel}
use cloud_lab_gateway.Ports.{Answer, gives, fails}
use cloud_lab_gateway.Storage.Columns.{Timestamptz, timestamptz}
use cloud_lab_gateway.Storage.Labs.Listing.{max_int32}

abbrev pub Bytes : Type 0
Bytes = List ℕ

-- AES-GCM under a key, with a nonce and additional data; the key has 16, 24 or 32 bytes.
pub record Aead : Type 0 where
  pub seal : Bytes → Bytes → Bytes → String → Bytes
  pub unseal : Bytes → Bytes → Bytes → String → Option Bytes

abbrev pub key_size : ℕ
key_size = 32

abbrev pub current_version : ℕ
current_version = 1

abbrev is_key : Bytes → Bool
is_key k = length k == 16 || length k == 24 || length k == 32

abbrev pub external {ℓ} : {A : Type ℓ} → String → Answer A
external s = fails (Err.external s)

abbrev pub and_then {ℓ κ} : {A : Type ℓ} {B : Type κ} → Answer A → (A → Answer B) → Answer B
and_then (gives a) f = f a
and_then (fails e) f = fails e

pub new_key_provider_from_key : Bytes → Answer Bytes
new_key_provider_from_key kek =
    if not (length kek == key_size) then external "envkek: KEK must be 32 bytes" else gives kek

abbrev decoded : Option Bytes → Answer Bytes
decoded none = external "envkek: invalid KEK encoding"
decoded (some kek) = gives kek

-- The text of the environment's variable, and what base64 makes of it.
pub new_key_provider : String → (String → Option Bytes) → Answer Bytes
unfolding new_key_provider_from_key
new_key_provider raw decode =
    if str_eq raw ""
    then external "envkek: CLG_KEK_BASE64 is required"
    else and_then (decoded (decode raw)) new_key_provider_from_key

-- What the random source gives: the key of the secret and the two nonces.
pub record Random : Type 0 where
  pub dek : Answer Bytes
  pub payload_nonce : Answer Bytes
  pub dek_nonce : Answer Bytes

pub record Wrapped : Type 0 where
  pub ciphertext : Bytes
  pub nonce : Bytes
  pub version : ℕ

seal_dek : Aead → Bytes → Answer Bytes → Bytes → String → Answer Wrapped
seal_dek a kek nonce dek aad = and_then nonce (λ n.
    gives (record { ciphertext = a.seal kek n dek aad; nonce = n; version = current_version }))

pub encrypt_dek : Aead → Bytes → Answer Bytes → Bytes → String → Answer Wrapped
unfolding seal_dek
encrypt_dek a kek nonce dek aad =
    if not (length dek == key_size)
    then external "envkek: DEK must be 32 bytes"
    else if is_key kek
    then seal_dek a kek nonce dek aad
    else external "envkek: initialize KEK cipher"

abbrev opened : Option Bytes → String → Answer Bytes
opened none message = external message
opened (some p) message = gives p

pub decrypt_dek : Aead → Bytes → Bytes → Bytes → ℕ → String → Answer Bytes
decrypt_dek a kek ciphertext nonce version aad =
    if not (version == current_version)
    then external "envkek: unsupported KEK version"
    else if is_key kek
    then opened (a.unseal kek nonce ciphertext aad) "envkek: decrypt DEK failed"
    else external "envkek: initialize KEK cipher"

pub encrypt_with_key : Aead → Bytes → Answer Bytes → Bytes → String → Answer (Bytes × Bytes)
encrypt_with_key a key nonce plain aad =
    if is_key key
    then and_then nonce (λ n. gives (a.seal key n plain aad, n))
    else external "envkek: initialize cipher"

pub decrypt_with_key : Aead → Bytes → Bytes → Bytes → String → Answer Bytes
decrypt_with_key a key ciphertext nonce aad =
    if is_key key
    then opened (a.unseal key nonce ciphertext aad) "cipher: message authentication failed"
    else external "envkek: initialize cipher"

abbrev pub secret_aad : String → String → String
secret_aad kind ref_id = kind ⧺ ":" ⧺ ref_id

pub kek_version_int32 : ℕ → Answer ℕ
kek_version_int32 version =
    if version == 0 || ltb max_int32 version
    then fails (Err.sentinel Sentinel.invalid_input)
    else gives version

-- sqlcgen.EncryptedSecret, whose instant of creation nothing reads.
pub record Secret : Type 0 where
  pub kind : String
  pub ref_id : String
  pub dek_ciphertext : Bytes
  pub dek_nonce : Bytes
  pub payload_ciphertext : Bytes
  pub payload_nonce : Bytes
  pub aad : String
  pub kek_version : ℕ

-- The table, and the secrets whose access was audited, the last one first.
pub record Vault : Type 0 where
  pub secrets : List (SecretId × Secret)
  pub audited : List SecretId

-- The cipher, the key of the gateway, and whether the server or the audit refuses.
pub record Store : Type 0 where
  pub aead : Aead
  pub kek : Bytes
  pub has_audit : Bool
  pub refuses : String → Vault → Option Err

insert_encrypted_secret : Store → SecretId → Secret → Vault → Vault × Answer SecretId
insert_encrypted_secret s id secret v = elim (s.refuses "InsertEncryptedSecret" v) [
  | some e ↦ (v, fails (Err.wrapped "envkek: insert secret" e))
  | none ↦ elim (get id v.secrets) [
    | none ↦ (record v { secrets = put id secret v.secrets }, gives id)
    | some _ ↦ (
      v,
      fails (
          Err.wrapped "envkek: insert secret"
            (Err.external "duplicate key value violates unique constraint")),
    )
  ]
]

abbrev in_context : Answer Wrapped → Answer Wrapped
in_context (gives w) = gives w
in_context (fails e) = fails (Err.wrapped "envkek: wrap DEK" e)

-- The envelope that Put makes before it is stored.
seal_secret : Store → Random → String → String → Bytes → Answer Secret
unfolding encrypt_with_key encrypt_dek kek_version_int32
seal_secret s rnd kind ref_id payload =
    let aad = secret_aad kind ref_id in
    and_then rnd.dek (λ dek.
      and_then (encrypt_with_key s.aead dek rnd.payload_nonce payload aad) (λ (c, n).
        and_then (in_context (encrypt_dek s.aead s.kek rnd.dek_nonce dek aad)) (λ w.
          and_then (kek_version_int32 w.version) (λ version. gives (record {
            kind = kind;
            ref_id = ref_id;
            dek_ciphertext = w.ciphertext;
            dek_nonce = w.nonce;
            payload_ciphertext = c;
            payload_nonce = n;
            aad = aad;
            kek_version = version;
          })))))

store_secret : Store → SecretId → Answer Secret → Vault → Vault × Answer SecretId
unfolding insert_encrypted_secret
store_secret s id (fails e) v = (v, fails e)
store_secret s id (gives secret) v = insert_encrypted_secret s id secret v

-- `id` is the new identifier.
pub put_secret :
    Store → Random → SecretId → String → String → Bytes → Vault → Vault × Answer SecretId
unfolding seal_secret store_secret
put_secret s rnd id kind ref_id payload v =
    if str_eq kind "" || str_eq ref_id ""
    then (v, fails (Err.sentinel Sentinel.invalid_input))
    else store_secret s id (seal_secret s rnd kind ref_id payload) v

-- A refusal of the audit is logged.
append_access_audit : Store → SecretId → Vault → Vault
append_access_audit s id v = if not s.has_audit then v else elim (s.refuses "InsertAuditEvent" v) [
  | none ↦ record v { audited = id ∷ v.audited }
  | some _ ↦ v
]

abbrev pub mismatch : Err
mismatch = Err.wrapped "envkek: decrypt secret" (Err.sentinel Sentinel.secret_mismatch)

open_secret : Store → Secret → Answer Bytes
unfolding decrypt_dek decrypt_with_key
open_secret s r =
    and_then (decrypt_dek s.aead s.kek r.dek_ciphertext r.dek_nonce r.kek_version r.aad)
      (λ dek. decrypt_with_key s.aead dek r.payload_ciphertext r.payload_nonce r.aad)

reveal : Store → SecretId → Answer Bytes → Vault → Vault × Answer Bytes
unfolding append_access_audit
reveal s id (gives plain) v = (append_access_audit s id v, gives plain)
reveal s id (fails e) v = (v, fails mismatch)

get_found : Store → SecretId → String → String → Option Secret → Vault → Vault × Answer Bytes
unfolding reveal open_secret
get_found s id kind ref_id none v = (v, fails (Err.sentinel Sentinel.not_found))
get_found s id kind ref_id (some r) v =
    if not (str_eq r.kind kind) || not (str_eq r.ref_id ref_id)
    then (v, fails (Err.sentinel Sentinel.forbidden))
    else reveal s id (open_secret s r) v

pub get_secret : Store → SecretId → String → String → Vault → Vault × Answer Bytes
unfolding get_found
get_secret s id kind ref_id v = elim (s.refuses "GetEncryptedSecretByID" v) [
  | none ↦ get_found s id kind ref_id (get id v.secrets) v
  | some e ↦ (v, fails (Err.wrapped "envkek: get secret" e))
]

pub delete_secret : Store → SecretId → Vault → Vault × Answer (Unit {0})
delete_secret s id v = elim (s.refuses "DeleteEncryptedSecret" v) [
  | none ↦ (record v { secrets = delete id v.secrets }, gives tt)
  | some e ↦ (v, fails (Err.wrapped "envkek: delete secret" e))
]
