-- ===== src/Secrets/Tests.antt =====
-- internal/adapters/secrets/envkek/store.go: a key of a lab as a test, over a cipher that hides nothing.
use cloud_lab_gateway.Common.{◌≡◌, refl, ◌≢◌, true, some, none, [], ◌∷◌, arith, eq_iff}
use cloud_lab_gateway.Common.Maps.{nat_keys}
use cloud_lab_gateway.Ports.{gives}
use cloud_lab_gateway.Secrets.{
  Bytes, Aead, Random, Secret, Vault, Store, put_secret, store_secret, seal_secret,
  insert_encrypted_secret, encrypt_with_key, encrypt_dek, kek_version_int32, get_secret,
}
use cloud_lab_gateway.Secrets.Envelope.{IsAead, get-put}

abbrev plain : Aead
plain = record { seal = λ k n p d. p; unseal = λ k n c d. some c }

plain-IsAead : IsAead plain
plain-IsAead k n p d = refl

abbrev key : Bytes
key =
    1 ∷ 2 ∷ 3 ∷ 4 ∷ 5 ∷ 6 ∷ 7 ∷ 8 ∷ 1 ∷ 2 ∷ 3 ∷ 4 ∷ 5 ∷ 6 ∷ 7 ∷ 8 ∷ 1 ∷ 2 ∷ 3 ∷ 4 ∷ 5 ∷ 6 ∷ 7 ∷ 8
    ∷ 1 ∷ 2 ∷ 3 ∷ 4 ∷ 5 ∷ 6 ∷ 7 ∷ 8 ∷ []

abbrev store : Store
store = record { aead = plain; kek = key; has_audit = true; refuses = λ q v. none }

abbrev random : Random
random = record { dek = gives key; payload_nonce = gives (7 ∷ []); dek_nonce = gives (8 ∷ []) }

abbrev empty_vault : Vault
empty_vault = record { secrets = []; audited = [] }

abbrev ssh_key : Secret
ssh_key = record {
  kind = "ssh_private_key";
  ref_id = "lab-1";
  dek_ciphertext = key;
  dek_nonce = 8 ∷ [];
  payload_ciphertext = 42 ∷ [];
  payload_nonce = 7 ∷ [];
  aad = "ssh_private_key:lab-1";
  kek_version = 1;
}

abbrev one_secret : Vault
one_secret = record { secrets = (6, ssh_key) ∷ []; audited = [] }

get-put_example : (get_secret store 6 "ssh_private_key" "lab-1" one_secret).1 ≡ gives (42 ∷ [])
unfolding put_secret store_secret seal_secret insert_encrypted_secret encrypt_with_key encrypt_dek
    kek_version_int32
get-put_example =
    get-put store random "ssh_private_key" "lab-1" (42 ∷ []) plain-IsAead empty_vault one_secret 6
      refl refl

apart : ssh_key.ref_id ≢ "lab-2"
apart e = let same = (eq_iff "lab-1" "lab-2").1 e in ground (arith, same)
