-- ===== src/Lockout/State.antt =====
-- security/lockout.py: the constants of the delays, the row and the methods.
use ultimate_enigma.Prelude.{
  ℕ, ◌+◌, ◌-◌, min, List, [], ◌∷◌, length, get_or, Bool, true, false, ltb, leb, if◌then◌else◌,
  Option, none, some, Result, ok, err, Error,
}
use ultimate_enigma.Action.{Action, lift, ◌>>=◌, ◌>>◌}
use ultimate_enigma.Utf8.{Text}
use ultimate_enigma.Decimal.{int}

abbrev pub backoff_table : List ℕ
backoff_table = 0 ∷ 0 ∷ 0 ∷ 0 ∷ 0 ∷ 5 ∷ 10 ∷ 30 ∷ 60 ∷ 120 ∷ 300 ∷ 600 ∷ 1800 ∷ 3600 ∷ []

abbrev pub hard_lockout_threshold : ℕ
hard_lockout_threshold = 15

abbrev pub hard_lockout_duration : ℕ
hard_lockout_duration = 3600

-- The dictionary that is written, as JSON, under the key 'lockout_data'.
pub record LockoutData : Type 0 where
  pub failures : ℕ
  pub locked_until : ℕ

-- A value of a JSON object, as far as `int` and `float` tell such values apart.
pub data Value : Type 0 where
  number : ℕ → Value
  string : Text → Value
  other_value : Value

-- What a row is as JSON: an object, with the values under the two keys, or something else.
pub data Document : Type 0 where
  object : Option Value → Option Value → Document
  no_object : Document

-- `json.dumps`, `json.loads` and `float` of a text.
pub record Json : Type 0 where
  pub dumps : LockoutData → Text
  pub loads : Text → Result Document
  pub float : Text → Result ℕ

-- What the database answers: `get_connection()`, and the statements with the commit.
pub record Answers : Type 0 where
  pub connects : Result (Unit {0})
  pub executes : Result (Unit {0})

pub record LockoutManager : Type 0 where
  pub failed_attempts : ℕ
  pub locked_until : ℕ
  pub row : Option Text

-- `int(value)` and `float(value)`, by what they do with a text.
abbrev pub number_of : (Text → Result ℕ) → Value → Result ℕ
number_of parse (number n) = ok n
number_of parse (string text) = parse text
number_of parse other_value = err Error.type_error

-- `data.get(key, 0)`
abbrev pub get_or_zero : Option Value → Value
get_or_zero none = number 0
get_or_zero (some value) = value

-- `except (sqlite3.Error, json.JSONDecodeError, ValueError)`
abbrev pub is_load_failure : Error → Bool
is_load_failure Error.database_error = true
is_load_failure Error.json_decode_error = true
is_load_failure Error.unicode_error = true
is_load_failure (Error.value_error text) = true
is_load_failure e = false

-- `except (sqlite3.Error, TypeError)`
abbrev pub is_save_failure : Error → Bool
is_save_failure Error.database_error = true
is_save_failure Error.type_error = true
is_save_failure e = false

abbrev pub set_counts : ℕ → ℕ → Action LockoutManager (Unit {0})
set_counts failures until m = (ok tt, record m { failed_attempts = failures; locked_until = until })

-- The attributes are set one after the other.
abbrev pub set_failures : ℕ → Action LockoutManager (Unit {0})
set_failures failures m = (ok tt, record m { failed_attempts = failures })

abbrev pub set_locked_until : ℕ → Action LockoutManager (Unit {0})
set_locked_until until m = (ok tt, record m { locked_until = until })

abbrev pub unlock_if : Bool → Error → LockoutManager → Result (Unit {0}) × LockoutManager
unlock_if true e m = set_counts 0 0 m
unlock_if false e m = (err e, m)

abbrev pub load_caught : Result (Unit {0}) × LockoutManager → Result (Unit {0}) × LockoutManager
load_caught (ok done, m) = (ok done, m)
load_caught (err e, m) = unlock_if (is_load_failure e) e m

abbrev pub pass_if : Bool → Error → LockoutManager → Result (Unit {0}) × LockoutManager
pass_if true e m = (ok tt, m)
pass_if false e m = (err e, m)

abbrev pub save_caught : Result (Unit {0}) × LockoutManager → Result (Unit {0}) × LockoutManager
save_caught (ok done, m) = (ok done, m)
save_caught (err e, m) = pass_if (is_save_failure e) e m

module _ (J : Json) where
  open J use {dumps, loads, float}

  abbrev pub load_document : Document → Action LockoutManager (Unit {0})
  load_document no_object = lift (err Error.attribute_error)
  load_document (object failures until) = do
    n ← lift (number_of int (get_or_zero failures))
    set_failures n
    t ← lift (number_of float (get_or_zero until))
    set_locked_until t

  abbrev pub load_row : Option Text → Action LockoutManager (Unit {0})
  load_row none = set_counts 0 0
  load_row (some text) = do document ← lift (loads text); load_document document

  -- `_load_state`
  unfoldable pub load_state : Answers → Action LockoutManager (Unit {0})
  load_state answers m =
      load_caught ((do lift answers.connects; lift answers.executes; load_row m.row) m)

  -- `LockoutManager()`, over the row that is there.
  unfoldable pub new_manager : Answers → Option Text → Result (Unit {0}) × LockoutManager
  new_manager answers row =
      load_state answers (record { failed_attempts = 0; locked_until = 0; row = row })

  abbrev pub store : Action LockoutManager (Unit {0})
  store m = (
    ok tt,
    record m {
      row = some (dumps (record { failures = m.failed_attempts; locked_until = m.locked_until }));
    },
  )

  unfoldable pub save_state : Answers → Action LockoutManager (Unit {0})
  save_state answers m = save_caught ((do lift answers.connects; lift answers.executes; store) m)

unfoldable pub get_delay : ℕ → LockoutManager → ℕ
get_delay now m =
    if ltb now m.locked_until
    then m.locked_until - now
    else get_or backoff_table (min m.failed_attempts (length backoff_table - 1)) 0

module _ (J : Json) where
  -- The counters change before the state is saved, and stay if that raises.
  unfoldable pub record_failure : Answers → ℕ → Action LockoutManager (Unit {0})
  record_failure answers now m =
      let failures = m.failed_attempts + 1 in
      save_state J answers (
        if leb hard_lockout_threshold failures
        then record m { failed_attempts = failures; locked_until = now + hard_lockout_duration }
        else record m { failed_attempts = failures })

  unfoldable pub reset : Answers → Action LockoutManager (Unit {0})
  reset answers m = save_state J answers (record m { failed_attempts = 0; locked_until = 0 })

  -- Failed attempts one after another, at the given times, whatever the database answers; an
  -- exception of one of them does not hinder the next.
  abbrev pub record_failures : List (Answers × ℕ) → LockoutManager → LockoutManager
  record_failures [] m = m
  record_failures ((answers, now) ∷ attempts) m =
      record_failures attempts (record_failure answers now m).1
