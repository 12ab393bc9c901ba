-- ===== src/KeyStore.antt =====
-- database.py: `encrypt_secret` and `decrypt_secret`, and the secrets that key_manager.py stores
-- with them. `Packages` is what is called of argon2, cryptography, base64 and json; a password
-- stands for its bytes. `KeyStoreState` is the database, as it was last committed and as the open
-- connection sees it, and what is in memory of the unlocked keys.
pub mod Secrets
pub mod Password
pub mod Friends
pub mod Change
pub mod Keeps
pub mod Atomic
pub mod Changed
pub mod Renewed
mod Tests
use ultimate_enigma.Prelude.{
  ℕ, List, [], ◌∷◌, Bool, true, false, Option, none, some, Result, ok, err, Error, ◌>>=◌,
}
use ultimate_enigma.Bytes.{Bytes, same_bytes}
use ultimate_enigma.Utf8.{Text}
use ultimate_enigma.XChaCha.{Aead}

-- The dictionary that a secret is stored as.
pub record EncDict : Type 0 where
  pub kdf : Option Text
  pub salt : Option Text
  pub nonce : Option Text
  pub ct : Option Text

pub record Packages : Type 0 where
  -- Of password and salt.
  pub hash_secret_raw : Bytes → Bytes → Result Bytes
  pub pbkdf2 : Bytes → Bytes → Result Bytes
  pub aesgcm : Aead
  pub b64encode : Bytes → Text
  pub b64decode : Text → Result Bytes
  pub dumps : EncDict → Text
  pub loads : Text → Result EncDict
  -- A private key, of PEM and password, and its PEM.
  pub pem_to_privkey : Text → Bytes → Result Bytes
  pub privkey_to_encrypted_pem : Bytes → Bytes → Result Text
  -- `GuardedBuffer(len(content))` and `write(content)`.
  pub guard : Bytes → Result (Unit {0})

-- `"argon2id"`
abbrev pub argon2id : Text
argon2id = b'a' ∷ b'r' ∷ b'g' ∷ b'o' ∷ b'n' ∷ b'2' ∷ b'i' ∷ b'd' ∷ []

-- `except (ValueError, TypeError, json.JSONDecodeError)`
abbrev pub is_value_error : Error → Bool
is_value_error (Error.value_error text) = true
is_value_error Error.unicode_error = true
is_value_error Error.json_decode_error = true
is_value_error Error.type_error = true
is_value_error e = false

-- `enc_dict[key]`
abbrev pub field : Option Text → Result Text
field none = err Error.key_error
field (some text) = ok text

abbrev pub is_argon2id : Option Text → Bool
is_argon2id none = false
is_argon2id (some kdf) = same_bytes kdf argon2id

module _ (K : Packages) where
  open K use {hash_secret_raw, pbkdf2, aesgcm, b64encode, b64decode}

  -- With the salt and the nonce that it draws.
  unfoldable pub encrypt_secret : Bytes × Bytes → Bytes → Bytes → Result EncDict
  encrypt_secret (salt, nonce) plain_bytes password = do
    key ← hash_secret_raw password salt
    ct ← aesgcm.seal key nonce plain_bytes none
    ok (record {
      kdf = some argon2id;
      salt = some (b64encode salt);
      nonce = some (b64encode nonce);
      ct = some (b64encode ct);
    })

  abbrev pub derive_key : Bool → Bytes → Bytes → Result Bytes
  derive_key true password salt = hash_secret_raw password salt
  derive_key false password salt = pbkdf2 password salt

  unfoldable pub decrypt_secret : EncDict → Bytes → Result Bytes
  decrypt_secret enc_dict password = do
    salt ← field enc_dict.salt >>= b64decode
    nonce ← field enc_dict.nonce >>= b64decode
    ct ← field enc_dict.ct >>= b64decode
    key ← derive_key (is_argon2id enc_dict.kdf) password salt
    aesgcm.open_sealed key nonce ct none

-- The rows of the table `settings` that hold secrets.
pub record Settings : Type 0 where
  pub global_secret : Option Text
  pub duress_verifier : Option Text
  pub private_key_encrypted : Option Text
  pub totp_secret_encrypted : Option Text
  pub ratchet_storage_key : Option Text
  pub kyber_priv_encrypted : Option Text
  pub ed25519_priv_encrypted : Option Text
  pub dilithium_priv_encrypted : Option Text

-- A row of the table `friends`.
pub record FriendRow : Type 0 where
  pub name : Text
  pub has_shared_secret : Bool
  pub shared_secret_encrypted : Option Text
  pub ecdh_priv_encrypted : Option Text

pub record Rows : Type 0 where
  pub settings : Settings
  pub friends : List FriendRow

-- The unlocked keys; a friend is a name, a public key and the shared secret.
pub record Memory : Type 0 where
  pub global_secret : Option Bytes
  pub my_priv : Option Bytes
  pub friends : List (Text × (Bytes × Option Bytes))
  pub ratchet_storage_key : Option Bytes

pub record KeyStoreState : Type 0 where
  pub committed : Rows
  pub pending : Rows
  pub memory : Memory
