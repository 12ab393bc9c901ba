-- ===== src/KeyStore/Change.antt =====
-- key_manager.py: `KeyStore.change_password`.
use ultimate_enigma.Prelude.{
  ℕ, List, [], ◌∷◌, Bool, true, false, ◌||◌, Option, none, some, Result, ok, err, Error, require,
}
use ultimate_enigma.Prelude
use ultimate_enigma.Action.{Action, lift, give, get, put, ◌>>=◌, ◌>>◌}
use ultimate_enigma.Bytes.{Bytes}
use ultimate_enigma.Utf8.{Text}
use ultimate_enigma.KeyStore.{Packages, Settings, KeyStoreState, is_value_error, decrypt_secret}
use ultimate_enigma.KeyStore.Friends.{
  Secret, the_global_secret, the_private_key, the_totp_secret, the_ratchet_key, commit, row_of,
  as_key_store_error, shared_rows, update_settings, update_memory, execute, encrypted, decrypted,
  change_friends,
}

-- What is known before the commit: the global secret, the private key and the friends' secrets.
pub record Prepared : Type 0 where
  pub gs_plain : Bytes
  pub priv_key : Bytes
  pub friend_updates : List (Text × Bytes)

abbrev pub totp_if : Bool → Error → Result (Option Bytes)
totp_if true e = ok none
totp_if false e = err e

-- A secret that does not open is passed over, with a warning.
abbrev pub totp_of : Result Bytes → Result (Option Bytes)
totp_of (ok plain) = ok (some plain)
totp_of (err e) = totp_if (is_value_error e) e

-- `except KeyStoreError`, and `except (ValueError, TypeError, sqlite3.Error)`.
abbrev pub is_rolled_back : Error → Bool
is_rolled_back Error.key_store_error = true
is_rolled_back Error.database_error = true
is_rolled_back e = is_value_error e

abbrev pub rollback : KeyStoreState → KeyStoreState
rollback s = record s { pending = s.committed }

-- What was not committed is lost when the connection is closed.
abbrev pub close : KeyStoreState → KeyStoreState
close s = record s { pending = s.committed }

abbrev pub raised : Bool → Error → KeyStoreState → Result Bool × KeyStoreState
raised true e s = (err Error.key_store_error, close (rollback s))
raised false e s = (err e, close s)

abbrev pub handled : Result Bool × KeyStoreState → Result Bool × KeyStoreState
handled (ok value, s) = (ok value, close s)
handled (err e, s) = raised (is_rolled_back e) e s

module _ (K : Packages) (draws : Secret → Bytes × Bytes) (accepts : Secret → Bool) where
  open K use {loads, pem_to_privkey, privkey_to_encrypted_pem, guard}

  unfoldable pub write_global_secret : Bytes → Bytes → Action KeyStoreState (Unit {0})
  write_global_secret gs_plain password = do
    row ← lift (encrypted K draws accepts the_global_secret gs_plain password)
    execute K draws accepts the_global_secret
    update_settings (λ t. record t { global_secret = some row })

  unfoldable pub write_private_key : Bytes → Bytes → Action KeyStoreState (Unit {0})
  write_private_key priv_key password = do
    pem ← lift (privkey_to_encrypted_pem priv_key password)
    execute K draws accepts the_private_key
    update_settings (λ t. record t { private_key_encrypted = some pem })

  unfoldable pub write_totp_secret : Option Bytes → Bytes → Action KeyStoreState (Unit {0})
  write_totp_secret none password = give tt
  write_totp_secret (some totp_plain) password = do
    row ← lift (encrypted K draws accepts the_totp_secret totp_plain password)
    execute K draws accepts the_totp_secret
    update_settings (λ t. record t { totp_secret_encrypted = some row })

  unfoldable pub write_ratchet_key : Option Bytes → Bytes → Action KeyStoreState (Unit {0})
  write_ratchet_key none password = give tt
  write_ratchet_key (some key) password = do
    row ← lift (encrypted K draws accepts the_ratchet_key key password)
    execute K draws accepts the_ratchet_key
    update_settings (λ t. record t { ratchet_storage_key = some row })

  abbrev pub decrypt_totp : Option Text → Bytes → Result (Option Bytes)
  decrypt_totp none password = ok none
  decrypt_totp (some row) password = totp_of (decrypted K draws accepts row password)

  -- The global secret and the private key, under the old password.
  unfoldable pub open_keys : Bytes → Settings → Result (Bytes × Bytes)
  open_keys old_password settings = Prelude.◌>>=◌ (row_of settings.global_secret) λ row.
      Prelude.◌>>=◌ (loads row) λ enc_dict.
        Prelude.◌>>=◌ (as_key_store_error (decrypt_secret K enc_dict old_password)) λ checked.
          Prelude.◌>>=◌ (decrypt_secret K enc_dict old_password) λ gs_plain.
            Prelude.◌>>=◌ (row_of settings.private_key_encrypted) λ row_pk.
              Prelude.◌>>=◌ (as_key_store_error (pem_to_privkey row_pk old_password))
                λ priv_key. ok (gs_plain, priv_key)

  -- The third step. An UPDATE of a row that was read has a row to change.
  unfoldable pub write_all :
      Prepared → Option Bytes → Option Bytes → Bytes → Action KeyStoreState Prepared
  write_all p totp_plain ratchet_key new_password = do
    write_global_secret p.gs_plain new_password
    write_private_key p.priv_key new_password
    write_totp_secret totp_plain new_password
    write_ratchet_key ratchet_key new_password
    give p

  -- The steps before the commit.
  unfoldable pub prepare : Bytes → Bytes → Action KeyStoreState Prepared
  prepare old_password new_password = do
    s ← get
    keys ← lift (open_keys old_password s.pending.settings)
    friend_updates ←
        change_friends K draws accepts old_password new_password (shared_rows s.pending.friends)
    totp_plain ← lift (decrypt_totp s.pending.settings.totp_secret_encrypted old_password)
    write_all (record { gs_plain = keys.0; priv_key = keys.1; friend_updates = friend_updates })
        totp_plain s.memory.ratchet_storage_key new_password

  unfoldable pub conn_commit : Action KeyStoreState (Unit {0})
  conn_commit = do execute K draws accepts commit; s ← get; put (record s { committed = s.pending })

  -- The keys in memory, after the commit; the old buffer is freed before a new one is had.
  unfoldable pub finish : Prepared → Action KeyStoreState Bool
  finish p = do
    old ← get
    put (record old { memory = record old.memory { global_secret = none } })
    lift (guard p.gs_plain)
    s ← get
    put (record s {
      memory = record s.memory {
        global_secret = some p.gs_plain;
        my_priv = some p.priv_key;
        friends = update_memory p.friend_updates s.memory.friends;
      };
    })
    give true

  unfoldable pub change_password : Bytes → Bytes → Action KeyStoreState Bool
  change_password old_password new_password s =
      handled ((prepare old_password new_password >>= λ p. conn_commit >> finish p) s)
