-- ===== src/Lockout.antt =====
-- security/lockout.py: `LockoutManager`. Times are natural numbers of one unit, with a second for
-- the unit of the table; `now` is what `time.time()` returns. The row of the table `settings` is
-- part of the state, and `Answers` is what the database answers. A `sqlite3.Error` is caught; the
-- exceptions that `get_connection` makes of it are not.
mod State
pub mod Restart
mod Tests
unfoldable pub use State.*
use ultimate_enigma.Action.{lift, ◌>>◌}
use ultimate_enigma.Prelude.{
  ℕ, zero, suc, ◌+◌, ◌-◌, ◌≤◌, ◌<◌, ◌≡◌, refl, sym, ap, ◌∙◌, min, List, [], ◌∷◌, length, get_or,
  Bool, true, false, Bool-cases, inl, inr, ltb, lt→ltb, ltb→lt, leb, le→leb, leb→le, ◌||◌,
  if◌then◌else◌, Result, ok, err, Error, every, every_sound, arith,
}

module _ (J : Json) where
  abbrev counts : LockoutManager → ℕ × ℕ
  counts m = (m.failed_attempts, m.locked_until)

  save_state-counts :
      (answers : Answers) (m : LockoutManager) → counts (save_state J answers m).1 ≡ counts m
  unfolding save_state
  save_state-counts answers m = split answers.connects answers.executes
    where
      passed : (b : Bool) (e : Error) → counts (pass_if b e m).1 ≡ counts m
      passed true e = refl
      passed false e = refl

      split :
          (connects executes : Result (Unit {0}))
          → counts (save_caught ((lift connects >> (lift executes >> store J)) m)).1 ≡ counts m
      split (err e) executes = passed (is_save_failure e) e
      split (ok done) (err e) = passed (is_save_failure e) e
      split (ok done) (ok done') = refl

  failed : Bool → ℕ → LockoutManager → LockoutManager
  failed locks now m =
      if locks
      then record m {
        failed_attempts = m.failed_attempts + 1;
        locked_until = now + hard_lockout_duration;
      }
      else record m { failed_attempts = m.failed_attempts + 1 }

  failed-failures :
      (locks : Bool) (now : ℕ) (m : LockoutManager)
      → (failed locks now m).failed_attempts ≡ m.failed_attempts + 1
  unfolding failed
  failed-failures true now m = refl
  failed-failures false now m = refl

  record_failure-failures :
      (answers : Answers) (now : ℕ) (m : LockoutManager)
      → (record_failure J answers now m).1.failed_attempts ≡ m.failed_attempts + 1
  unfolding record_failure failed
  record_failure-failures answers now m =
      ap (λ c. c.0) (save_state-counts answers _)
      ∙ failed-failures (leb hard_lockout_threshold (m.failed_attempts + 1)) now m

  record_failures-count :
      (attempts : List (Answers × ℕ)) (m : LockoutManager)
      → (record_failures J attempts m).failed_attempts ≡ m.failed_attempts + length attempts
  record_failures-count [] m = omega arith
  record_failures-count ((answers, now) ∷ attempts) m =
      record_failures-count attempts (record_failure J answers now m).1
      ∙ omega (arith, record_failure-failures answers now m)

  -- After a reset and 14 failures or more, whatever was saved, one more failure locks the account:
  -- from then on the delay is what is left of an hour, until the hour has passed.
  pub get_delay-record_failure :
      (answers last_answers : Answers) (attempts : List (Answers × ℕ)) (last now : ℕ)
      (m : LockoutManager)
      → 14 ≤ length attempts
      → now < last + 3600
      → get_delay now
          (record_failure J last_answers last (record_failures J attempts (reset J answers m).1)).1
        ≡ last + 3600 - now
  unfolding get_delay record_failure failed
  get_delay-record_failure answers last_answers attempts last now m many early =
      let before = record_failures J attempts (reset J answers m).1 in
      let count : 14 ≤ before.failed_attempts =
        omega (arith, record_failures-count attempts (reset J answers m).1) in
      let locked : (record_failure J last_answers last before).1.locked_until ≡ last + 3600 =
        ap (λ c. c.1) (save_state-counts last_answers _)
        ∙ ap (λ t. (failed t last before).locked_until)
            (le→leb hard_lockout_threshold (before.failed_attempts + 1) (omega arith)) in
      rw locked (rw (lt→ltb now (last + 3600) early))

pairs_pass :
    every
      (λ i. every (λ j. ltb j i || leb (get_or backoff_table i 0) (get_or backoff_table j 0)) 14)
      14
    ≡ true
unfolding every
pairs_pass = refl

backoff_table-Sorted :
    (i j : ℕ) → i ≤ j → j < 14 → get_or backoff_table i 0 ≤ get_or backoff_table j 0
backoff_table-Sorted i j h p =
    let row =
      every_sound
        (λ i. every (λ j. ltb j i || leb (get_or backoff_table i 0) (get_or backoff_table j 0)) 14)
        14 i pairs_pass (omega arith) in
    let entry =
      every_sound (λ j. ltb j i || leb (get_or backoff_table i 0) (get_or backoff_table j 0)) 14 j
        row p in
    elim (Bool-cases (ltb j i)) [
      | inl less ↦ absurd (omega (arith, ltb→lt j i less))
      | inr not_less ↦ leb→le (get_or backoff_table i 0) (get_or backoff_table j 0) (
          sym (ap (λ t. t || leb (get_or backoff_table i 0) (get_or backoff_table j 0)) not_less)
          ∙ entry)
    ]

-- While no lockout is active, more failures never make the delay shorter.
pub get_delay-monotone :
    (now : ℕ) (m n : LockoutManager)
    → m.locked_until ≤ now
    → n.locked_until ≤ now
    → m.failed_attempts ≤ n.failed_attempts
    → get_delay now m ≤ get_delay now n
unfolding get_delay
get_delay-monotone now m n um un h = rw (open_gate now m.locked_until um) (
    rw (open_gate now n.locked_until un) (
      backoff_table-Sorted (min m.failed_attempts 13) (min n.failed_attempts 13) (omega arith)
        (omega arith)))
  where
    open_gate : (a b : ℕ) → b ≤ a → ltb a b ≡ false
    open_gate a b p = ground arith
