-- ===== src/KeyStore/Password.antt =====
-- key_manager.py: `KeyStore.verify_password`, with the lockout of security/lockout.py. `reading` and
-- `writing` are what the database answers where the verifiers are read and where the state of the
-- lockout is saved; `now` and `later` are the times that are read before the test and after a
-- failure.
use ultimate_enigma.Prelude.{
  ℕ, Bool, true, false, ltb, ◌||◌, Option, none, some, Result, ok, err, Error, require, not,
  if◌then◌else◌,
}
use ultimate_enigma.Prelude
use ultimate_enigma.Action.{Action, lift, give, get, ◌>>=◌, ◌>>◌}
use ultimate_enigma.Bytes.{Bytes}
use ultimate_enigma.Utf8.{Text}
use ultimate_enigma.Lockout.{LockoutManager, Json, Answers, get_delay, record_failure, reset}
use ultimate_enigma.KeyStore.{Packages, EncDict, Settings, is_value_error, decrypt_secret}

pub record Login : Type 0 where
  pub settings : Settings
  pub lockout : LockoutManager
  pub duress_mode : Bool

-- Caught, or raised again.
abbrev pub instead_if {ℓ} : {A : Type ℓ} → Bool → A → Error → Result A
instead_if true value e = ok value
instead_if false value e = err e

-- `except (ValueError, TypeError, sqlite3.Error)`
abbrev pub is_not_loaded : Error → Bool
is_not_loaded Error.database_error = true
is_not_loaded e = is_value_error e

-- `except (ValueError, TypeError, InvalidTag)`
abbrev pub is_wrong : Error → Bool
is_wrong Error.invalid_tag = true
is_wrong e = is_value_error e

abbrev pub matches : Result Bytes → Result Bool
matches (ok plain) = ok true
matches (err e) = instead_if (is_wrong e) false e

abbrev pub waits : ℕ → Error
waits delay = Error.lockout_error delay

module _ (K : Packages) where
  open K use {loads}

  abbrev pub load_dict : Option Text → Result (Option EncDict)
  load_dict none = ok none
  load_dict (some row) = Prelude.◌>>=◌ (loads row) λ d. ok (some d)

  abbrev pub second :
      Option EncDict → Result (Option EncDict) → Result (Option EncDict × Option EncDict)
  second master (ok duress) = ok (master, duress)
  second master (err e) = instead_if (is_not_loaded e) (master, none) e

  abbrev pub both :
      Result (Option EncDict) → Result (Option EncDict) → Result (Option EncDict × Option EncDict)
  both (ok master) duress = second master duress
  both (err e) duress = instead_if (is_not_loaded e) (none, none) e

  abbrev pub if_read :
      Result (Unit {0})
      → Result (Option EncDict × Option EncDict)
      → Result (Option EncDict × Option EncDict)
  if_read (ok done) loaded = loaded
  if_read (err e) loaded = instead_if (is_not_loaded e) (none, none) e

  -- An exception of the connection that is no `sqlite3.Error` is not caught.
  unfoldable pub load_verifiers : Answers → Settings → Result (Option EncDict × Option EncDict)
  load_verifiers reading settings =
      if_read (Prelude.◌>>◌ reading.connects reading.executes)
        (both (load_dict settings.global_secret) (load_dict settings.duress_verifier))

  unfoldable pub opens : Option EncDict → Bytes → Result Bool
  opens none password = ok false
  opens (some enc_dict) password = matches (decrypt_secret K enc_dict password)

-- A method of the lockout that the key store has.
abbrev pub on_lockout : Action LockoutManager (Unit {0}) → Action Login (Unit {0})
on_lockout method s = ((method s.lockout).0, record s { lockout = (method s.lockout).1 })

abbrev pub set_duress_mode : Bool → Action Login (Unit {0})
set_duress_mode duress_mode s = (ok tt, record s { duress_mode = duress_mode })

module _ (K : Packages) (J : Json) where
  -- What follows the two tests, of the master password and of the duress password.
  unfoldable pub conclude : Answers → ℕ → Bool → Bool → Action Login Bool
  conclude writing later true duress_ok = do
    on_lockout (reset J writing)
    set_duress_mode false
    give true
  conclude writing later false true = do
    on_lockout (reset J writing)
    set_duress_mode true
    give true
  conclude writing later false false = do on_lockout (record_failure J writing later); give false

  unfoldable pub verify_password : Answers → Answers → ℕ → ℕ → Bytes → Action Login Bool
  verify_password reading writing now later password = do
    s ← get
    let delay = get_delay now s.lockout
    lift (require (not (ltb 0 delay)) (waits delay))
    (master_enc, duress_enc) ← lift (load_verifiers K reading s.settings)
    master_ok ← lift (opens K master_enc password)
    duress_ok ← lift (opens K duress_enc password)
    conclude writing later master_ok duress_ok
