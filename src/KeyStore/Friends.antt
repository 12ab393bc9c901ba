-- ===== src/KeyStore/Friends.antt =====
-- key_manager.py: how `KeyStore.change_password` encrypts the secrets of the friends again. `draws` gives the salt and the nonce that a secret is
-- encrypted with, and `accepts` tells whether the database takes the statement that writes it.
use ultimate_enigma.Prelude.{
  ℕ, List, [], ◌∷◌, map, Bool, true, false, ◌&&◌, Option, none, some, Result, ok, err, Error,
  require, if◌then◌else◌,
}
use ultimate_enigma.Prelude
use ultimate_enigma.Action.{Action, lift, give, get, put, ◌>>=◌, ◌>>◌}
use ultimate_enigma.Bytes.{Bytes, same_bytes}
use ultimate_enigma.Utf8.{Text}
use ultimate_enigma.Dict.{lookup}
use ultimate_enigma.RatchetService.{friend_names}
use ultimate_enigma.KeyStore.{
  Packages, Settings, FriendRow, KeyStoreState, is_value_error, encrypt_secret, decrypt_secret,
}

pub data Secret : Type 0 where
  the_global_secret the_private_key the_totp_secret the_ratchet_key commit : Secret
  the_shared_secret the_ecdh_priv : Text → Secret

-- `if not row: raise KeyStoreError`
abbrev pub row_of : Option Text → Result Text
row_of none = err Error.key_store_error
row_of (some row) = ok row

abbrev pub key_store_error_if : Bool → Error → Error
key_store_error_if true e = Error.key_store_error
key_store_error_if false e = e

-- `except (ValueError, TypeError) as e: raise KeyStoreError`
abbrev pub as_key_store_error : {A : Type 0} → Result A → Result A
as_key_store_error (ok value) = ok value
as_key_store_error (err e) = err (key_store_error_if (is_value_error e) e)

-- The rows of friends that the loop goes over.
abbrev pub is_shared : FriendRow → Bool
is_shared row =
    row.has_shared_secret && (elim row.shared_secret_encrypted [ none ↦ false | some text ↦ true ])

abbrev pub shared_rows : List FriendRow → List FriendRow
shared_rows [] = []
shared_rows (row ∷ rows) = let rest = shared_rows rows in if is_shared row then row ∷ rest else rest

-- `UPDATE friends SET … WHERE name=?`
abbrev pub update_friends : (FriendRow → FriendRow) → Text → List FriendRow → List FriendRow
update_friends change name rows =
    map (λ row. if same_bytes row.name name then change row else row) rows

-- `except (ValueError, TypeError, json.JSONDecodeError)`, with a warning.
abbrev pub skip_if : {A : Type 0} → Bool → Error → KeyStoreState → Result (Option A) × KeyStoreState
skip_if true e s = (ok none, s)
skip_if false e s = (err e, s)

abbrev pub caught : {A : Type 0} → Result A × KeyStoreState → Result (Option A) × KeyStoreState
caught (ok value, s) = (ok (some value), s)
caught (err e, s) = skip_if (is_value_error e) e s

abbrev pub update_settings : (Settings → Settings) → Action KeyStoreState (Unit {0})
update_settings change = do
  s ← get
  put (record s { pending = record s.pending { settings = change s.pending.settings } })

abbrev pub update_rows : (FriendRow → FriendRow) → Text → Action KeyStoreState (Unit {0})
update_rows change name = do
  s ← get
  put (record s {
    pending = record s.pending { friends = update_friends change name s.pending.friends };
  })

-- A dictionary of the secrets that were written, by name.
abbrev pub noted : Text → Option Bytes → List (Text × Bytes) → List (Text × Bytes)
noted name none updates = updates
noted name (some plain) updates = (name, plain) ∷ updates

abbrev pub kept_secret : Option Bytes → Option Bytes → Option Bytes
kept_secret none old = old
kept_secret (some plain) old = some plain

-- In memory, a friend whose secret was written gets a new buffer.
abbrev pub update_memory :
    List (Text × Bytes)
    → List (Text × (Bytes × Option Bytes))
    → List (Text × (Bytes × Option Bytes))
update_memory updates friends =
    map (λ f. (f.0, (f.1.0, kept_secret (lookup friend_names f.0 updates) f.1.1))) friends

module _ (K : Packages) (draws : Secret → Bytes × Bytes) (accepts : Secret → Bool) where
  open K use {loads, dumps, pem_to_privkey, privkey_to_encrypted_pem, guard}

  abbrev pub execute : Secret → Action KeyStoreState (Unit {0})
  execute secret = lift (require (accepts secret) Error.database_error)

  unfoldable pub encrypted : Secret → Bytes → Bytes → Result Text
  encrypted secret plain password =
      Prelude.◌>>=◌ (encrypt_secret K (draws secret) plain password) λ d. ok (dumps d)

  unfoldable pub decrypted : Text → Bytes → Result Bytes
  decrypted row password = Prelude.◌>>=◌ (loads row) λ d. decrypt_secret K d password

  unfoldable pub change_shared : Bytes → Bytes → Text → Text → Action KeyStoreState Bytes
  change_shared old_password new_password name sec_json = do
    friend_plain ← lift (decrypted sec_json old_password)
    new_sec_enc ← lift (encrypted (the_shared_secret name) friend_plain new_password)
    execute (the_shared_secret name)
    update_rows (λ row. record row { shared_secret_encrypted = some new_sec_enc }) name
    lift (guard friend_plain)
    give friend_plain

  unfoldable pub change_ecdh : Bytes → Bytes → Text → Text → Action KeyStoreState (Unit {0})
  change_ecdh old_password new_password name ecdh_json = do
    ecdh_plain ← lift (decrypted ecdh_json old_password)
    new_ecdh_enc ← lift (encrypted (the_ecdh_priv name) ecdh_plain new_password)
    execute (the_ecdh_priv name)
    update_rows (λ row. record row { ecdh_priv_encrypted = some new_ecdh_enc }) name

  abbrev pub change_ecdh_if :
      Bytes → Bytes → Text → Option Text → Action KeyStoreState (Option (Unit {0}))
  change_ecdh_if old_password new_password name none = give none
  change_ecdh_if old_password new_password name (some []) = give none
  change_ecdh_if old_password new_password name (some (c ∷ text)) =
      λ s. caught (change_ecdh old_password new_password name (c ∷ text) s)

  -- One turn of the loop over the friends; an empty text is skipped.
  abbrev pub change_friend :
      Bytes → Bytes → FriendRow → Option Text → Action KeyStoreState (Option Bytes)
  change_friend old_password new_password row none = give none
  change_friend old_password new_password row (some []) = give none
  change_friend old_password new_password row (some (c ∷ text)) = do
    update ← λ s. caught (change_shared old_password new_password row.name (c ∷ text) s)
    change_ecdh_if old_password new_password row.name row.ecdh_priv_encrypted
    give update

  unfoldable pub change_friends :
      Bytes → Bytes → List FriendRow → Action KeyStoreState (List (Text × Bytes))
  change_friends old_password new_password [] = give []
  change_friends old_password new_password (row ∷ rows) = do
    update ← change_friend old_password new_password row row.shared_secret_encrypted
    updates ← change_friends old_password new_password rows
    give (noted row.name update updates)
