-- ===== src/KeyStore/Keeps.antt =====
-- What the steps of `KeyStore.change_password` in key_manager.py leave as it is, also where they
-- raise: a part of the state that no UPDATE of theirs is about.
use ultimate_enigma.Prelude.{
  ◌≡◌, refl, ◌∙◌, List, [], ◌∷◌, Bool, true, false, Option, none, some, Result, ok, err, Error,
  require,
}
use ultimate_enigma.Action.{
  lift, get, ◌>>=◌, ◌>>◌, Keeps, Keeps-of, Keeps-bind, Keeps-lift, Keeps-give,
}
use ultimate_enigma.Bytes.{Bytes}
use ultimate_enigma.Utf8.{Text}
use ultimate_enigma.KeyStore.{
  Packages, FriendRow, Rows, Memory, KeyStoreState, Settings, is_value_error,
}
use ultimate_enigma.KeyStore.Friends.{
  Secret, the_global_secret, the_private_key, the_totp_secret, the_ratchet_key, the_shared_secret,
  the_ecdh_priv, shared_rows, update_settings, encrypted, decrypted, caught, skip_if, change_shared,
  change_ecdh, change_ecdh_if, change_friend, change_friends, noted, execute, update_rows,
}
use ultimate_enigma.KeyStore.Change.{
  Prepared, decrypt_totp, open_keys, write_all, prepare, write_global_secret, write_private_key,
  write_totp_secret, write_ratchet_key,
}

caught-view :
    {V : Type 0} (view : KeyStoreState → V) {A : Type 0} (outcome : Result A × KeyStoreState)
    → view (caught outcome).1 ≡ view outcome.1
caught-view view (ok value, s) = refl
caught-view view {A = A} (err e, s) = skipped (is_value_error e)
  where
    skipped : (b : Bool) → view (skip_if {A = A} b e s).1 ≡ view s
    skipped true = refl
    skipped false = refl

-- The rows and the keys that are there whatever happens before the commit, with the rows of the
-- table `settings` that no step writes.
abbrev pub lasting : KeyStoreState → (Rows × Memory) × (Option Text × Option Text × Option Text)
lasting s = (
  (s.committed, s.memory),
  (
    s.pending.settings.kyber_priv_encrypted, s.pending.settings.ed25519_priv_encrypted,
    s.pending.settings.dilithium_priv_encrypted,
  ),
)

module _ (K : Packages) (draws : Secret → Bytes × Bytes) (accepts : Secret → Bool) where
  abbrev tried : Secret → Result (Unit {0})
  tried secret = require (accepts secret) Error.database_error

  abbrev written : Secret → Bytes → Bytes → Result Text
  written secret plain password = encrypted K draws accepts secret plain password

  -- The loop over the friends writes only to their rows.
  module _ {V : Type 0} (view : KeyStoreState → V)
      (blind : (change : FriendRow → FriendRow) (name : Text)
        → Keeps view (update_rows change name)) where
    change_shared-Keeps :
        (old_password new_password : Bytes) (name sec_json : Text)
        → Keeps view (change_shared K draws accepts old_password new_password name sec_json)
    unfolding change_shared
    change_shared-Keeps old_password new_password name sec_json =
        Keeps-lift view (decrypted K draws accepts sec_json old_password) λ plain.
          Keeps-lift view (written (the_shared_secret name) plain new_password) λ text.
            Keeps-lift view (tried (the_shared_secret name)) λ done.
              let change : FriendRow → FriendRow =
                λ row. record row { shared_secret_encrypted = some text } in
              Keeps-bind view (update_rows change name) (blind change name)
                λ done. Keeps-lift view (K.guard plain) λ done. Keeps-give view plain

    change_ecdh-Keeps :
        (old_password new_password : Bytes) (name : Text) (ecdh_json : Option Text)
        → Keeps view (change_ecdh_if K draws accepts old_password new_password name ecdh_json)
    unfolding change_ecdh
    change_ecdh-Keeps old_password new_password name none = Keeps-give view none
    change_ecdh-Keeps old_password new_password name (some []) = Keeps-give view none
    change_ecdh-Keeps old_password new_password name (some (c ∷ text)) =
        let change = change_ecdh K draws accepts old_password new_password name (c ∷ text) in
        let kept : Keeps view change =
          Keeps-lift view (decrypted K draws accepts (c ∷ text) old_password) λ plain.
            Keeps-lift view (written (the_ecdh_priv name) plain new_password) λ row_text.
              Keeps-lift view (tried (the_ecdh_priv name))
                λ done. blind (λ row. record row { ecdh_priv_encrypted = some row_text }) name in
        Keeps-of view {action = λ s. caught (change s)}
          (λ s. caught-view view (change s) ∙ kept.kept s)

    change_friend-Keeps :
        (old_password new_password : Bytes) (row : FriendRow) (sec_json : Option Text)
        → Keeps view (change_friend K draws accepts old_password new_password row sec_json)
    change_friend-Keeps old_password new_password row none = Keeps-give view none
    change_friend-Keeps old_password new_password row (some []) = Keeps-give view none
    change_friend-Keeps old_password new_password row (some (c ∷ text)) =
        let change = change_shared K draws accepts old_password new_password row.name (c ∷ text) in
        let kept = change_shared-Keeps old_password new_password row.name (c ∷ text) in
        Keeps-bind view (λ s. caught (change s))
          (Keeps-of view (λ s. caught-view view (change s) ∙ kept.kept s))
          λ update.
            Keeps-bind view
              (change_ecdh_if K draws accepts old_password new_password row.name
                row.ecdh_priv_encrypted)
              (change_ecdh-Keeps old_password new_password row.name row.ecdh_priv_encrypted)
              λ done. Keeps-give view update

    pub change_friends-Keeps :
        (old_password new_password : Bytes) (rows : List FriendRow)
        → Keeps view (change_friends K draws accepts old_password new_password rows)
    unfolding change_friends
    change_friends-Keeps old_password new_password [] = Keeps-give view []
    change_friends-Keeps old_password new_password (row ∷ rows) =
        Keeps-bind view
          (change_friend K draws accepts old_password new_password row row.shared_secret_encrypted)
          (change_friend-Keeps old_password new_password row row.shared_secret_encrypted)
          λ update.
            Keeps-bind view (change_friends K draws accepts old_password new_password rows)
              (change_friends-Keeps old_password new_password rows)
              λ updates. Keeps-give view (noted row.name update updates)

    module _ (result : Result Text) (secret : Secret) (change : Text → Settings → Settings)
        (apart : (row : Text) → Keeps view (update_settings (change row))) where
      written-Keeps :
          Keeps view
            (lift result >>= λ row. execute K draws accepts secret >> update_settings (change row))
      written-Keeps = Keeps-lift view result λ row. Keeps-lift view (tried secret) λ done. apart row

    pub write_private_key-Keeps :
        (key password : Bytes)
        → ((row : Text)
            → Keeps view (update_settings (λ t. record t { private_key_encrypted = some row })))
        → Keeps view (write_private_key K draws accepts key password)
    unfolding write_private_key
    write_private_key-Keeps key password apart =
        written-Keeps (K.privkey_to_encrypted_pem key password) the_private_key
          (λ row t. record t { private_key_encrypted = some row }) apart

    pub write_totp_secret-Keeps :
        (totp_plain : Option Bytes) (password : Bytes)
        → ((row : Text)
            → Keeps view (update_settings (λ t. record t { totp_secret_encrypted = some row })))
        → Keeps view (write_totp_secret K draws accepts totp_plain password)
    unfolding write_totp_secret
    write_totp_secret-Keeps none password apart = Keeps-give view tt
    write_totp_secret-Keeps (some plain) password apart =
        written-Keeps (written the_totp_secret plain password) the_totp_secret
          (λ row t. record t { totp_secret_encrypted = some row }) apart

    pub write_ratchet_key-Keeps :
        (key : Option Bytes) (password : Bytes)
        → ((row : Text)
            → Keeps view (update_settings (λ t. record t { ratchet_storage_key = some row })))
        → Keeps view (write_ratchet_key K draws accepts key password)
    unfolding write_ratchet_key
    write_ratchet_key-Keeps none password apart = Keeps-give view tt
    write_ratchet_key-Keeps (some key) password apart =
        written-Keeps (written the_ratchet_key key password) the_ratchet_key
          (λ row t. record t { ratchet_storage_key = some row }) apart

    pub write_global_secret-Keeps :
        (plain password : Bytes)
        → ((row : Text) → Keeps view (update_settings (λ t. record t { global_secret = some row })))
        → Keeps view (write_global_secret K draws accepts plain password)
    unfolding write_global_secret
    write_global_secret-Keeps plain password apart =
        written-Keeps (written the_global_secret plain password) the_global_secret
          (λ row t. record t { global_secret = some row }) apart

  no_rows : (change : FriendRow → FriendRow) (name : Text) → Keeps lasting (update_rows change name)
  no_rows change name = Keeps-of lasting (λ s. refl)

  write_all-Keeps :
      (p : Prepared) (totp_plain ratchet_key : Option Bytes) (new_password : Bytes)
      → Keeps lasting (write_all K draws accepts p totp_plain ratchet_key new_password)
  unfolding write_all
  write_all-Keeps p totp_plain ratchet_key new_password =
      Keeps-bind lasting (write_global_secret K draws accepts p.gs_plain new_password)
        (write_global_secret-Keeps lasting no_rows p.gs_plain new_password
          (λ row. Keeps-of lasting (λ s. refl)))
        λ done.
          Keeps-bind lasting (write_private_key K draws accepts p.priv_key new_password)
            (write_private_key-Keeps lasting no_rows p.priv_key new_password
              (λ row. Keeps-of lasting (λ s. refl)))
            λ done.
              Keeps-bind lasting (write_totp_secret K draws accepts totp_plain new_password)
                (write_totp_secret-Keeps lasting no_rows totp_plain new_password
                  (λ row. Keeps-of lasting (λ s. refl)))
                λ done.
                  Keeps-bind lasting (write_ratchet_key K draws accepts ratchet_key new_password)
                    (write_ratchet_key-Keeps lasting no_rows ratchet_key new_password
                      (λ row. Keeps-of lasting (λ s. refl)))
                    λ done. Keeps-give lasting p

  pub prepare-Keeps :
      (old_password new_password : Bytes)
      → Keeps lasting (prepare K draws accepts old_password new_password)
  unfolding prepare
  prepare-Keeps old_password new_password =
      Keeps-bind lasting get (Keeps-of lasting (λ s. refl)) λ s.
        let settings = s.pending.settings in
        Keeps-lift lasting (open_keys K draws accepts old_password settings) λ keys.
          Keeps-bind lasting
            (change_friends K draws accepts old_password new_password
              (shared_rows s.pending.friends))
            (change_friends-Keeps lasting no_rows old_password new_password _)
            λ updates.
              Keeps-lift lasting
                (decrypt_totp K draws accepts settings.totp_secret_encrypted old_password)
                λ totp_plain. write_all-Keeps _ totp_plain s.memory.ratchet_storage_key new_password
