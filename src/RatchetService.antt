-- ===== src/RatchetService.antt =====
-- services/ratchet_service.py: `RatchetService`, the storage of the ratchet states. A state is kept
-- in the column `ratchet_state_json` of the table of friends, sealed under the storage key, and in a
-- buffer of states that are yet to be written. `Storage` is what the service calls of the packages
-- `json`, `base64` and `cryptography`; `accepts` tells whether the database takes an UPDATE of a
-- friend's row.
pub mod Session
pub mod Stored
pub mod Flush
pub mod Locks
pub mod Buffer
pub mod Sample
mod Tests
use ultimate_enigma.Prelude.{
  ℕ, ◌+◌, List, [], ◌∷◌, ◌++◌, length, take, drop, Bool, true, false, ◌==◌, leb, Option, none, some,
  Result, ok, err, Error, require, if◌then◌else◌,
}
use ultimate_enigma.Prelude
use ultimate_enigma.Action.{Action, lift, give, get, put, raise_as, ◌>>=◌, ◌>>◌}
use ultimate_enigma.Bytes.{Bytes, same_bytes, same_bytes_refl, same_bytes_sound}
use ultimate_enigma.Utf8
use ultimate_enigma.Utf8.{Text}
use ultimate_enigma.Dict.{Equality, insert}
use ultimate_enigma.XChaCha.{Aead}
use ultimate_enigma.DoubleRatchet.{Primitives, RatchetState}
use ultimate_enigma.DoubleRatchet.Serialize.{Serialized, serialize, deserialize}

pub record Storage : Type 0 where
  pub dumps : Serialized → Text
  pub loads : Text → Result Serialized
  pub b64encode : Bytes → Text
  pub b64decode : Text → Result Bytes
  -- `AESGCM(key).encrypt` and `decrypt`, which also refuse a key of a wrong size.
  pub aesgcm : Aead
  pub from_private_bytes : Bytes → Result Bytes

unfoldable pub friend_names : Equality Text
friend_names = record {
  same = same_bytes;
  same_sound = same_bytes_sound;
  same_refl = same_bytes_refl;
}

-- The attributes of the class, and the column of the table by the friend's name.
pub record RatchetService : Type 0 where
  pub storage_key : Option Bytes
  pub dirty_states : List (Text × RatchetState)
  pub flush_timer : Bool
  pub rows : List (Text × Option Text)

unfoldable pub set_ratchet_storage_key : Bytes → Action RatchetService (Unit {0})
set_ratchet_storage_key key = do
  lift (require (length key == 32) (Error.value_error "Ratchet storage key must be 32 bytes"))
  s ← get
  put (record s { storage_key = some key })

-- `UPDATE friends SET ratchet_state_json=? WHERE name=?`: no row, no change.
unfoldable pub update_row :
    Text → Option Text → List (Text × Option Text) → List (Text × Option Text)
update_row name value [] = []
update_row name value ((other, old) ∷ rows) =
    (other, if same_bytes other name then value else old) ∷ update_row name value rows

-- `SELECT ratchet_state_json FROM friends WHERE name=?`, and the two checks of what it returns.
unfoldable pub stored_blob : Text → List (Text × Option Text) → Result Text
stored_blob name [] = err Error.ratchet_not_found_error
stored_blob name ((other, value) ∷ rows) =
    let rest = stored_blob name rows in
    if same_bytes other name
    then elim value [ none ↦ err Error.ratchet_not_found_error | some blob ↦ ok blob ]
    else rest

abbrev pub key_or_refuse : Option Bytes → Result Bytes
key_or_refuse none = err Error.ratchet_service_error
key_or_refuse (some key) = ok key

abbrev pub starts_with_brace : Text → Bool
starts_with_brace [] = false
starts_with_brace (c ∷ text) = c == b'{'

-- Every exception becomes a RatchetServiceError.
abbrev pub as_service_error {ℓ} : {A : Type ℓ} → Result A → Result A
as_service_error (ok value) = ok value
as_service_error (err e) = err Error.ratchet_service_error

-- The same, but that a friend without a session keeps its own exception.
abbrev pub as_load_error {ℓ} : {A : Type ℓ} → Result A → Result A
as_load_error (ok value) = ok value
as_load_error (err Error.ratchet_not_found_error) = err Error.ratchet_not_found_error
as_load_error (err e) = err Error.ratchet_service_error

module _ (P : Primitives) (Z : Storage) where
  open Z use {dumps, loads, b64encode, b64decode, aesgcm, from_private_bytes}

  -- `_encrypt_ratchet_blob`, with the nonce that it draws.
  unfoldable pub encrypt_ratchet_blob : Option Bytes → Bytes → Text → Result Text
  encrypt_ratchet_blob storage_key nonce plaintext_json =
      Prelude.◌>>=◌ (key_or_refuse storage_key) λ key.
        Prelude.◌>>=◌ (Utf8.encode plaintext_json) λ plaintext.
          Prelude.◌>>=◌ (aesgcm.seal key nonce plaintext none) λ ct. ok (b64encode (nonce ++ ct))

  -- The body of the `try` of `_decrypt_ratchet_blob`.
  unfoldable pub open_blob : Bytes → Text → Result Text
  open_blob key encrypted_blob = Prelude.◌>>=◌ (b64decode encrypted_blob) λ blob.
      Prelude.◌>>◌ (require (leb 28 (length blob)) (Error.value_error "Encrypted blob too short"))
        (Prelude.◌>>=◌ (aesgcm.open_sealed key (take 12 blob) (drop 12 blob) none) Utf8.decode)

  -- Without a key, or where it looks like JSON, the blob is taken as it is.
  unfoldable pub decrypt_ratchet_blob : Option Bytes → Text → Result Text
  decrypt_ratchet_blob none encrypted_blob = ok encrypted_blob
  decrypt_ratchet_blob (some key) encrypted_blob =
      if starts_with_brace encrypted_blob
      then ok encrypted_blob
      else as_service_error (open_blob key encrypted_blob)

  unfoldable pub get_ratchet_state : Text → RatchetService → Result RatchetState
  get_ratchet_state friend_name s = as_load_error (
      Prelude.◌>>=◌ (stored_blob friend_name s.rows) λ blob.
        Prelude.◌>>=◌ (decrypt_ratchet_blob s.storage_key blob)
          λ decrypted_json. Prelude.◌>>=◌ (loads decrypted_json) (deserialize P from_private_bytes))

  module _ (accepts : Text → Bool) where
    unfoldable pub save_ratchet_state :
        Bytes → Text → RatchetState → Action RatchetService (Unit {0})
    save_ratchet_state nonce friend_name state s =
        elim (encrypt_ratchet_blob s.storage_key nonce (dumps (serialize state))) [
          | err e ↦ (err Error.ratchet_service_error, s)
          | ok blob ↦ elim (accepts friend_name) [
            | false ↦ (err Error.ratchet_service_error, s)
            | true ↦ (ok tt, record s { rows = update_row friend_name (some blob) s.rows })
          ]
        ]

    -- `_mark_dirty`, with the start of the timer.
    unfoldable pub mark_dirty : Text → RatchetState → Action RatchetService (Unit {0})
    mark_dirty friend_name state s = (
      ok tt,
      record s {
        dirty_states = insert friend_names friend_name state s.dirty_states;
        flush_timer = true;
      },
    )

    -- `dirty.update(remaining)`
    unfoldable pub update_dirty :
        List (Text × RatchetState) → List (Text × RatchetState) → List (Text × RatchetState)
    update_dirty [] dirty = dirty
    update_dirty ((friend_name, state) ∷ remaining) dirty =
        update_dirty remaining (insert friend_names friend_name state dirty)

    -- The loop, with the states that could not be written, which go back to the buffer. `nonces` is
    -- what `token_bytes` returns for each friend.
    unfoldable pub flush_each :
        (Text → Bytes)
        → List (Text × RatchetState)
        → ℕ
        → List (Text × RatchetState)
        → Action RatchetService ℕ
    flush_each nonces [] count remaining s =
        (ok count, record s { dirty_states = update_dirty remaining s.dirty_states })
    flush_each nonces ((friend_name, state) ∷ to_flush) count remaining s =
        let saved = save_ratchet_state (nonces friend_name) friend_name state s in
        let next = flush_each nonces to_flush (count + 1) remaining saved.1 in
        let failed =
          flush_each nonces to_flush count (remaining ++ (friend_name, state) ∷ []) saved.1 in
        elim saved.0 [ ok done ↦ next | err e ↦ failed ]

    unfoldable pub flush_dirty_states : (Text → Bytes) → Action RatchetService ℕ
    flush_dirty_states nonces s =
        flush_each nonces s.dirty_states 0 [] (record s { dirty_states = []; flush_timer = false })
