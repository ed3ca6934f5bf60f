-- ===== src/Secrets/Envelope.antt =====
-- internal/adapters/secrets/envkek/store.go: what a secret is worth after it was put.
use cloud_lab_gateway.Common.{
  ◌≡◌, ◌≢◌, refl, ◌⊎◌, inl, inr, true, not, ◌||◌, Bool-cases, Option, Option-cases, none, some, ◌∷◌,
  String, str_eq, eq_iff, arith,
}
use cloud_lab_gateway.Common.Maps.{get, nat_keys, get-put_self, get-delete_self}
use cloud_lab_gateway.Shared.{SecretId, Err, Sentinel}
use cloud_lab_gateway.Ports.{Answer, Answer-cases, gives, fails}
use cloud_lab_gateway.Secrets.{
  Bytes, Aead, Random, Secret, Vault, Store, secret_aad, encrypt_with_key, encrypt_dek, decrypt_dek,
  decrypt_with_key, kek_version_int32, insert_encrypted_secret, seal_secret, store_secret,
  put_secret, append_access_audit, open_secret, reveal, get_found, get_secret, delete_secret,
}

-- What AES-GCM is documented to do: what was sealed opens, under the same key, nonce and data.
abbrev pub IsAead : Aead → Type 0
IsAead a = (k n p : Bytes) (d : String) → a.unseal k n (a.seal k n p d) d ≡ some p

module _ (s : Store) (rnd : Random) (kind ref_id : String) (payload : Bytes)
    (law : IsAead s.aead) where
  open_seal :
      {r : Secret}
      → seal_secret s rnd kind ref_id payload ≡ gives r
      → open_secret s r ≡ gives payload
  unfolding seal_secret open_secret encrypt_with_key encrypt_dek decrypt_dek decrypt_with_key
      kek_version_int32
  open_seal {r} h = elim (Answer-cases rnd.dek) [
    | inr (x, e) ↦ absurd (ground (arith, h, e))
    | inl (dek, e) ↦ elim (Answer-cases rnd.payload_nonce) [
      | inr (x, f) ↦ absurd (ground (arith, h, e, f))
      | inl (n, f) ↦ elim (Answer-cases rnd.dek_nonce) [
        | inr (x, g) ↦ absurd (ground (arith, h, e, f, g))
        | inl (m, g) ↦ ground (
          arith,
          h,
          e,
          f,
          g,
          law dek n payload (secret_aad kind ref_id),
          law s.kek m dek (secret_aad kind ref_id),
        )
      ]
    ]
  ]

  identity :
      {r : Secret}
      → seal_secret s rnd kind ref_id payload ≡ gives r
      → (r.kind ≡ kind) × (r.ref_id ≡ ref_id)
  unfolding seal_secret encrypt_with_key encrypt_dek kek_version_int32
  identity {r} h = ground (arith, h)

  -- A secret that was put is read back by its identifier, under the kind and the reference that it was put
  -- with, where the cipher opens what it sealed and the server does not refuse the read.
  pub get-put :
      (v v' : Vault) (id : SecretId)
      → put_secret s rnd id kind ref_id payload v ≡ (v', gives id)
      → s.refuses "GetEncryptedSecretByID" v' ≡ none
      → (get_secret s id kind ref_id v').1 ≡ gives payload
  unfolding put_secret store_secret insert_encrypted_secret get_secret get_found reveal
  get-put v v' id h fine = elim (Answer-cases (seal_secret s rnd kind ref_id payload)) [
    | inr (x, e) ↦ absurd (ground (arith, h, e))
    | inl (r, e) ↦ ground (
      arith,
      h,
      e,
      fine,
      open_seal e,
      identity e,
      get-put_self id r v.secrets,
      eq_iff kind kind,
      eq_iff ref_id ref_id,
    )
  ]

-- A secret is not given out under another kind or another reference: the read is forbidden, and leaves
-- everything as it was.
pub get_secret-forbidden :
    (s : Store) (id : SecretId) (kind ref_id : String) (v : Vault) {r : Secret}
    → s.refuses "GetEncryptedSecretByID" v ≡ none
    → get id v.secrets ≡ some r
    → (r.kind ≢ kind) ⊎ (r.ref_id ≢ ref_id)
    → get_secret s id kind ref_id v ≡ (v, fails (Err.sentinel Sentinel.forbidden))
unfolding get_secret get_found
get_secret-forbidden s id kind ref_id v {r} fine there (inl k) =
    ground (arith, fine, there, k, eq_iff r.kind kind)
get_secret-forbidden s id kind ref_id v {r} fine there (inr k) =
    ground (arith, fine, there, k, eq_iff r.ref_id ref_id)

-- What a read leaves: where the plain text is given out the access is audited, unless the audit refuses,
-- and otherwise nothing changes.
abbrev pub Audited : Store → SecretId → Vault → Vault × Answer Bytes → Type 0
Audited s id v (v', gives _) =
    (v'.secrets ≡ v.secrets)
    × (s.has_audit ≡ true → s.refuses "InsertAuditEvent" v ≡ none → v'.audited ≡ id ∷ v.audited)
Audited s id v (v', fails _) = v' ≡ v

reveal-Audited :
    (s : Store) (id : SecretId) (a : Answer Bytes) (v : Vault) → Audited s id v (reveal s id a v)
unfolding reveal append_access_audit
reveal-Audited s id (gives p) v = ground arith
reveal-Audited s id (fails e) v = refl

get_found-Audited :
    (s : Store) (id : SecretId) (kind ref_id : String) (o : Option Secret) (v : Vault)
    → Audited s id v (get_found s id kind ref_id o v)
unfolding get_found
get_found-Audited s id kind ref_id none v = refl
get_found-Audited s id kind ref_id (some r) v =
    elim (Bool-cases (not (str_eq r.kind kind) || not (str_eq r.ref_id ref_id))) [
      | inl e ↦ rw e refl
      | inr e ↦ rw e (reveal-Audited s id (open_secret s r) v)
    ]

-- A read that gives a secret out leaves the secrets and has the access audited, where the audit is wired and
-- does not refuse; a read that fails changes nothing.
pub get_secret-Audited :
    (s : Store) (id : SecretId) (kind ref_id : String) (v : Vault)
    → Audited s id v (get_secret s id kind ref_id v)
unfolding get_secret
get_secret-Audited s id kind ref_id v = elim (Option-cases (s.refuses "GetEncryptedSecretByID" v)) [
  | inl e ↦
      let step : get_secret s id kind ref_id v ≡ get_found s id kind ref_id (get id v.secrets) v =
        ground (arith, e) in
      rw step (get_found-Audited s id kind ref_id (get id v.secrets) v)
  | inr (x, e) ↦
      let step : get_secret s id kind ref_id v ≡ (v, fails (Err.wrapped "envkek: get secret" x)) =
        ground (arith, e) in
      rw step refl
]

-- A deletion that is not refused removes the secret, whether it was there or not, and no read finds it.
pub get-delete_secret :
    (s : Store) (id : SecretId) (kind ref_id : String) (v : Vault)
    → s.refuses "DeleteEncryptedSecret" v ≡ none
    → s.refuses "GetEncryptedSecretByID" (delete_secret s id v).0 ≡ none
    → get_secret s id kind ref_id (delete_secret s id v).0
      ≡ ((delete_secret s id v).0, fails (Err.sentinel Sentinel.not_found))
unfolding get_secret get_found delete_secret
get-delete_secret s id kind ref_id v del read =
    ground (arith, del, read, get-delete_self id v.secrets)
