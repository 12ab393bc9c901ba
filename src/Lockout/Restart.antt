-- ===== src/Lockout/Restart.antt =====
-- security/lockout.py: a program that is started again, over the row that was written before.
use ultimate_enigma.Prelude.{
  ℕ, ◌+◌, ◌≡◌, refl, ap, Bool, true, false, leb, if◌then◌else◌, Option, some, Result, ok, err,
  Error,
}
use ultimate_enigma.Action.{lift, ◌>>=◌}
use ultimate_enigma.Utf8.{Text}
use ultimate_enigma.Lockout.{
  LockoutManager, Json, LockoutData, object, number, Answers, hard_lockout_threshold,
  hard_lockout_duration, is_load_failure, unlock_if, load_caught, load_document, load_state,
  new_manager, save_state, record_failure,
}

-- What the module `json` documents: an object of two numbers is read as it was written.
pub record Lawful (J : Json) : Type 0 where
  pub loads-dumps :
      (written : LockoutData)
      → J.loads (J.dumps written)
        ≡ ok (object (some (number written.failures)) (some (number written.locked_until)))

-- The database takes every statement.
abbrev pub answered : Answers
answered = record { connects = ok tt; executes = ok tt }

-- The connection is there and a statement raises.
abbrev pub failing : Error → Answers
failing e = record { connects = ok tt; executes = err e }

abbrev pub raised_if : Bool → Error → Result (Unit {0})
raised_if true e = ok tt
raised_if false e = err e

abbrev pub unlocked : Option Text → LockoutManager
unlocked row = record { failed_attempts = 0; locked_until = 0; row = row }

module _ (J : Json) (laws : Lawful J) where
  new_manager-save_state :
      (m : LockoutManager)
      → new_manager J answered (save_state J answered m).1.row
        ≡ (ok tt, (save_state J answered m).1)
  unfolding new_manager load_state save_state
  new_manager-save_state m =
      let saved = (save_state J answered m).1 in
      ap (λ r. load_caught ((lift r >>= load_document J) (unlocked saved.row)))
        (laws.loads-dumps (record { failures = m.failed_attempts; locked_until = m.locked_until }))

  new_manager-failing :
      (e : Error) (row : Option Text)
      → new_manager J (failing e) row ≡ (raised_if (is_load_failure e) e, unlocked row)
  unfolding new_manager load_state
  new_manager-failing e row = split (is_load_failure e)
    where
      split : (b : Bool) → unlock_if b e (unlocked row) ≡ (raised_if b e, unlocked row)
      split true = refl
      split false = refl

  -- A failure that was saved is there after a restart: the new manager has the failures and the
  -- end of the lockout that the old one had, so that a restart does not lift a lockout. Where the
  -- statement that reads the row raises, the new manager has no failures and no lockout, whatever
  -- the row says: a `sqlite3.Error` or a ValueError is caught, and any other exception is raised.
  pub new_manager-record_failure :
      (m : LockoutManager) (now : ℕ) (e : Error)
      → let after = (record_failure J answered now m).1 in
        (new_manager J answered after.row ≡ (ok tt, after))
        × (after.failed_attempts ≡ m.failed_attempts + 1)
        × (new_manager J (failing e) after.row
            ≡ (raised_if (is_load_failure e) e, unlocked after.row))
  unfolding record_failure save_state
  new_manager-record_failure m now e =
      let failed : Bool → LockoutManager = λ locks.
        if locks
        then record m {
          failed_attempts = m.failed_attempts + 1;
          locked_until = now + hard_lockout_duration;
        }
        else record m { failed_attempts = m.failed_attempts + 1 } in
      let locks = leb hard_lockout_threshold (m.failed_attempts + 1) in
      (new_manager-save_state (failed locks), counted locks, new_manager-failing e _)
    where
      counted :
          (b : Bool)
          → (if b
              then record m {
                failed_attempts = m.failed_attempts + 1;
                locked_until = now + hard_lockout_duration;
              }
              else record m { failed_attempts = m.failed_attempts + 1 }).failed_attempts
            ≡ m.failed_attempts + 1
      counted true = refl
      counted false = refl
