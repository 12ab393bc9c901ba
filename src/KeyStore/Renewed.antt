-- ===== src/KeyStore/Renewed.antt =====
-- A change of the password in key_manager.py that succeeds, and the test of the new password.
use ultimate_enigma.Prelude.{
  ℕ, ◌≡◌, refl, ap, ◌∙◌, sym, subst, Bool, true, false, not, ltb, Option, none, some, Result, ok,
  err, Error, require, >>=-ok, ok_injective, Bool-cases, inl, inr,
}
use ultimate_enigma.Prelude
use ultimate_enigma.Action
use ultimate_enigma.Action.{lift, lift-ok, ◌>>=◌, ◌>>◌, after_lift}
use ultimate_enigma.Bytes.{Bytes}
use ultimate_enigma.Utf8.{Text}
use ultimate_enigma.Lockout.{Json, Answers, LockoutManager, save_state, get_delay, reset}
use ultimate_enigma.Lockout.Restart.{answered, failing}
use ultimate_enigma.KeyStore.{Packages, EncDict, KeyStoreState, Settings}
use ultimate_enigma.KeyStore.Secrets.{Lawful}
use ultimate_enigma.KeyStore.Friends.{Secret, commit, decrypted}
use ultimate_enigma.KeyStore.Keeps.{prepare-Keeps, lasting}
use ultimate_enigma.KeyStore.Changed.{prepare-ok, handled-ok, after-Keeps}
use ultimate_enigma.KeyStore.Change.{Prepared, prepare, conn_commit, finish, change_password}
use ultimate_enigma.KeyStore.Password.{
  Login, verify_password, load_verifiers, load_dict, both, second, opens, matches, conclude, waits,
}

-- The rows that no step of a change writes.
abbrev pub other_keys : Settings → Option Text × Option Text × Option Text
other_keys t = (t.kyber_priv_encrypted, t.ed25519_priv_encrypted, t.dilithium_priv_encrypted)

-- The database answers; it takes the state of the lockout or refuses it by a `sqlite3.Error`.
abbrev pub saving : Bool → Answers
saving true = answered
saving false = failing Error.database_error

reset-saving : (J : Json) (saves : Bool) (m : LockoutManager) → (reset J (saving saves) m).0 ≡ ok tt
unfolding reset save_state
reset-saving J true m = refl
reset-saving J false m = refl

module _ (K : Packages) (draws : Secret → Bytes × Bytes) (accepts : Secret → Bool) where
  -- What a commit and the end of a change leave.
  committed-ok :
      (p : Prepared) (b : Bool) (s t : KeyStoreState)
      → (conn_commit K draws accepts >> finish K draws accepts p) s ≡ (ok b, t)
      → (t.committed ≡ s.pending) × (t.memory.global_secret ≡ some p.gs_plain)
  unfolding conn_commit finish
  committed-ok p b s t h =
      let (done, s2, commits, h1) = Action.>>=-ok (conn_commit K draws accepts) _ s t h in
      let (taken, accepted, written) =
        lift-ok (require (accepts commit) Error.database_error) _ s s2 commits in
      let (guarded, e, ended) =
        lift-ok (K.guard p.gs_plain) _
          (record s2 { memory = record s2.memory { global_secret = none } }) t h1 in
      (
        sym (ap (λ o. o.1.committed) ended) ∙ sym (ap (λ o. o.1.committed) written),
        sym (ap (λ o. o.1.memory.global_secret) ended),
      )

  -- After a change of the password that succeeds, the global secret is stored under the new
  -- password and is the one that the old password opened, as it is in memory; the rows of the
  -- Kyber, the Ed25519 and the Dilithium key are the ones of before.
  pub change_password-ok :
      (laws : Lawful K) (old_password new_password : Bytes) (s s' : KeyStoreState) (b : Bool)
      → change_password K draws accepts old_password new_password s ≡ (ok b, s')
      → (plain : Bytes) × (row row' : Text) × (s.pending.settings.global_secret ≡ some row)
        × (decrypted K draws accepts row old_password ≡ ok plain)
        × (s'.committed.settings.global_secret ≡ some row')
        × (decrypted K draws accepts row' new_password ≡ ok plain)
        × (s'.memory.global_secret ≡ some plain)
        × (other_keys s'.committed.settings ≡ other_keys s.pending.settings)
  unfolding change_password
  change_password-ok laws old_password new_password s s' b h =
      let (t, body, closed) = handled-ok _ b s' h in
      let (p, s1, prepared, rest) =
        Action.>>=-ok (prepare K draws accepts old_password new_password) _ s t body in
      let (row, row', e_row, old_opens, e_row', opens_new) =
        prepare-ok K laws draws accepts old_password new_password s s1 p prepared in
      let (written, memory) = committed-ok p b s1 t rest in
      let kept =
        after-Keeps lasting s s1 (prepare-Keeps K draws accepts old_password new_password)
          prepared in
      let stored : s'.committed ≡ s1.pending = ap (λ x. x.committed) closed ∙ written in
      (
        p.gs_plain,
        row,
        row',
        e_row,
        old_opens,
        ap (λ x. x.settings.global_secret) stored ∙ e_row',
        opens_new,
        ap (λ x. x.memory.global_secret) closed ∙ memory,
        ap (λ x. other_keys x.settings) stored ∙ ap (λ v. v.1) kept,
      )

  -- After a change of the password that succeeds, the new password is accepted, as the master
  -- password, where no delay is active and the test of the duress verifier, if there is one, raises
  -- no exception that is not caught. The lockout is reset, whether the database takes its state or
  -- refuses it by a `sqlite3.Error`.
  pub verify_password-change_password :
      (J : Json) (laws : Lawful K) (old_password new_password : Bytes) (s s' : KeyStoreState)
      (b saves duress_ok : Bool) (now later : ℕ) (login : Login) (duress : Option EncDict)
      → change_password K draws accepts old_password new_password s ≡ (ok b, s')
      → login.settings ≡ s'.committed.settings
      → get_delay now login.lockout ≡ 0
      → load_dict K login.settings.duress_verifier ≡ ok duress
      → opens K duress new_password ≡ ok duress_ok
      → verify_password K J answered (saving saves) now later new_password login ≡ (
        ok true,
        record login { lockout = (reset J (saving saves) login.lockout).1; duress_mode = false },
      )
  unfolding verify_password load_verifiers opens decrypted conclude
  verify_password-change_password J laws old_password new_password s s' b saves duress_ok now later
        login duress changed same idle loads_duress tested =
      let (plain, row, row', e_row, old_opens, e_row', opens_new, memory, others) =
        change_password-ok laws old_password new_password s s' b changed in
      let stored : login.settings.global_secret ≡ some row' =
        ap (λ t. t.global_secret) same ∙ e_row' in
      let (d, e_d, opened) = >>=-ok (K.loads row') _ opens_new in
      let loaded : load_verifiers K answered login.settings ≡ ok (some d, duress) =
        ap (λ r. both K (load_dict K r) (load_dict K login.settings.duress_verifier)) stored
        ∙ ap (λ r. both K r (load_dict K login.settings.duress_verifier)) (Prelude.then _ e_d)
        ∙ ap (second K (some d)) loads_duress in
      after_lift _ (ap (λ n. require (not (ltb 0 n)) (waits n)) idle)
      ∙ after_lift _ loaded
      ∙ after_lift _ (ap matches opened)
      ∙ after_lift _ tested
      ∙ after_lift _ (reset-saving J saves login.lockout)
