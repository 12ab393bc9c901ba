-- ===== src/KeyStore/Changed.antt =====
-- A change of the password in key_manager.py that succeeds: what the new password opens.
use ultimate_enigma.Prelude.{
  ℕ, ◌≡◌, refl, ap, ◌∙◌, sym, subst, List, Bool, true, false, Option, none, some, Result, ok, err,
  Error, require, >>=-ok, ok_injective, Bool-cases, inl, inr,
}
use ultimate_enigma.Prelude
use ultimate_enigma.Action
use ultimate_enigma.Action.{Action, Keeps, Keeps-of, lift, lift-ok, ◌>>=◌, ◌>>◌}
use ultimate_enigma.Bytes.{Bytes}
use ultimate_enigma.Utf8.{Text}
use ultimate_enigma.KeyStore.{Packages, KeyStoreState, FriendRow, encrypt_secret, decrypt_secret}
use ultimate_enigma.KeyStore.Secrets.{Lawful, decrypt_secret-encrypt_secret}
use ultimate_enigma.KeyStore.Friends.{
  Secret, the_global_secret, row_of, as_key_store_error, shared_rows, encrypted, decrypted,
  change_friends, update_rows,
}
use ultimate_enigma.KeyStore.Keeps.{
  write_private_key-Keeps, write_totp_secret-Keeps, write_ratchet_key-Keeps,
}
use ultimate_enigma.KeyStore.Change.{
  Prepared, prepare, open_keys, write_all, decrypt_totp, write_global_secret, write_private_key,
  write_totp_secret, write_ratchet_key, handled, raised, is_rolled_back, close,
}

row_of-ok : (o : Option Text) (row : Text) → row_of o ≡ ok row → o ≡ some row
row_of-ok none row h = cc
row_of-ok (some text) row h = ap some (ok_injective h)

pub handled-ok :
    (outcome : Result Bool × KeyStoreState) (b : Bool) (s' : KeyStoreState)
    → handled outcome ≡ (ok b, s')
    → (t : KeyStoreState) × (outcome ≡ (ok b, t)) × (s' ≡ close t)
handled-ok (ok value, t) b s' h = (t, ap (λ o. (o.0, t)) h, sym (ap (λ o. o.1) h))
handled-ok (err e, t) b s' h = absurd (raised-err (is_rolled_back e) h)
  where
    raised-err : (c : Bool) → raised c e t ≡ (ok b, s') → ⊥
    raised-err true h = cc
    raised-err false h = cc

-- What an action that succeeded kept.
pub after-Keeps :
    {V : Type 0} (view : KeyStoreState → V) {A : Type 0} {action : Action KeyStoreState A}
    {value : A} (s t : KeyStoreState)
    → Keeps view action
    → action s ≡ (ok value, t)
    → view t ≡ view s
after-Keeps view s t k e = sym (ap (λ o. view o.1) e) ∙ k.kept s

abbrev pub global_row : KeyStoreState → Option Text
global_row s = s.pending.settings.global_secret

module _ (K : Packages) (laws : Lawful K) (draws : Secret → Bytes × Bytes)
    (accepts : Secret → Bool) where
  encrypted-decrypted :
      (secret : Secret) (plain password : Bytes) (row : Text)
      → encrypted K draws accepts secret plain password ≡ ok row
      → decrypted K draws accepts row password ≡ ok plain
  unfolding encrypted decrypted
  encrypted-decrypted secret plain password row h =
      let (d, sealed, dumped) = >>=-ok (encrypt_secret K (draws secret) plain password) _ h in
      ap (λ r. Prelude.◌>>=◌ (K.loads r) λ d. decrypt_secret K d password)
        (sym (ok_injective dumped))
      ∙ Prelude.then _ (laws.loads-dumps d)
      ∙ decrypt_secret-encrypt_secret K laws (draws secret) plain password d sealed

  write_global_secret-ok :
      (plain password : Bytes) (s t : KeyStoreState) (done : Unit {0})
      → write_global_secret K draws accepts plain password s ≡ (ok done, t)
      → (row : Text) × (global_row t ≡ some row)
        × (decrypted K draws accepts row password ≡ ok plain)
  unfolding write_global_secret
  write_global_secret-ok plain password s t done h =
      let (row, sealed, h1) =
        lift-ok (encrypted K draws accepts the_global_secret plain password) _ s t h in
      let (taken, accepted, h2) =
        lift-ok (require (accepts the_global_secret) Error.database_error) _ s t h1 in
      (
        row,
        sym (ap (λ o. global_row o.1) h2),
        encrypted-decrypted the_global_secret plain password row sealed,
      )

  open_keys-ok :
      (old_password : Bytes) (s : KeyStoreState) (keys : Bytes × Bytes)
      → open_keys K draws accepts old_password s.pending.settings ≡ ok keys
      → (row : Text) × (global_row s ≡ some row)
        × (decrypted K draws accepts row old_password ≡ ok keys.0)
  unfolding open_keys decrypted
  open_keys-ok old_password s keys h =
      let (row, e_row, h1) = >>=-ok (row_of s.pending.settings.global_secret) _ h in
      let (d, e_d, h2) = >>=-ok (K.loads row) _ h1 in
      let (checked, e_c, h3) = >>=-ok (as_key_store_error (decrypt_secret K d old_password)) _ h2 in
      let (plain, e_plain, h4) = >>=-ok (decrypt_secret K d old_password) _ h3 in
      let (row_pk, e_pk, h5) = >>=-ok (row_of s.pending.settings.private_key_encrypted) _ h4 in
      let (priv, e_priv, h6) =
        >>=-ok (as_key_store_error (K.pem_to_privkey row_pk old_password)) _ h5 in
      (
        row,
        row_of-ok s.pending.settings.global_secret row e_row,
        Prelude.then _ e_d ∙ e_plain ∙ ap (λ k. ok k.0) (ok_injective h6),
      )

  apart_rows :
      (change : FriendRow → FriendRow) (name : Text) → Keeps global_row (update_rows change name)
  apart_rows change name = Keeps-of global_row (λ s. refl)

  write_all-ok :
      (p q : Prepared) (totp ratchet_key : Option Bytes) (new_password : Bytes)
      (s t : KeyStoreState)
      → write_all K draws accepts p totp ratchet_key new_password s ≡ (ok q, t)
      → (row : Text) × (global_row t ≡ some row)
        × (decrypted K draws accepts row new_password ≡ ok p.gs_plain)
        × (p ≡ q)
  unfolding write_all
  write_all-ok p q totp ratchet_key new_password s t h =
      let (done1, sb, e_g, h1) =
        Action.>>=-ok (write_global_secret K draws accepts p.gs_plain new_password) _ s t h in
      let (done2, sc, e_p, h2) =
        Action.>>=-ok (write_private_key K draws accepts p.priv_key new_password) _ sb t h1 in
      let (done3, sd, e_o, h3) =
        Action.>>=-ok (write_totp_secret K draws accepts totp new_password) _ sc t h2 in
      let (done4, se, e_r, h4) =
        Action.>>=-ok (write_ratchet_key K draws accepts ratchet_key new_password) _ sd t h3 in
      let (row, e_row, opened) = write_global_secret-ok p.gs_plain new_password s sb done1 e_g in
      (
        row,
        sym (ap (λ o. global_row o.1) h4)
            ∙ after-Keeps global_row sd se
                (write_ratchet_key-Keeps K draws accepts global_row apart_rows ratchet_key
                  new_password (λ row. Keeps-of global_row (λ s. refl)))
                e_r
            ∙ after-Keeps global_row sc sd
                (write_totp_secret-Keeps K draws accepts global_row apart_rows totp new_password
                  (λ row. Keeps-of global_row (λ s. refl)))
                e_o
            ∙ after-Keeps global_row sb sc
                (write_private_key-Keeps K draws accepts global_row apart_rows p.priv_key
                  new_password (λ row. Keeps-of global_row (λ s. refl)))
                e_p
            ∙ e_row,
        opened,
        ok_injective (ap (λ o. o.0) h4),
      )

  pub prepare-ok :
      (old_password new_password : Bytes) (s t : KeyStoreState) (p : Prepared)
      → prepare K draws accepts old_password new_password s ≡ (ok p, t)
      → (row row' : Text) × (global_row s ≡ some row)
        × (decrypted K draws accepts row old_password ≡ ok p.gs_plain)
        × (global_row t ≡ some row')
        × (decrypted K draws accepts row' new_password ≡ ok p.gs_plain)
  unfolding prepare
  prepare-ok old_password new_password s t p h =
      let settings = s.pending.settings in
      let (keys, e_k, h1) = lift-ok (open_keys K draws accepts old_password settings) _ s t h in
      let (updates, sa, e_f, h2) =
        Action.>>=-ok
          (change_friends K draws accepts old_password new_password (shared_rows s.pending.friends))
          _ s t h1 in
      let (totp, e_t, h3) =
        lift-ok (decrypt_totp K draws accepts settings.totp_secret_encrypted old_password) _ sa t
          h2 in
      let (row, e_row, old_opens) = open_keys-ok old_password s keys e_k in
      let (row', e_row', opens, same) =
        write_all-ok (record { gs_plain = keys.0; priv_key = keys.1; friend_updates = updates }) p
          totp s.memory.ratchet_storage_key new_password sa t h3 in
      (
        row,
        row',
        e_row,
        old_opens ∙ ap (λ q. ok q.gs_plain) same,
        e_row',
        opens ∙ ap (λ q. ok q.gs_plain) same,
      )
