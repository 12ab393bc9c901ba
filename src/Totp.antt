-- ===== src/Totp.antt =====
-- services/totp_service.py: `TOTPService`. A guarded buffer stands for what was written to it, a
-- timestamp for its whole seconds. HMAC-SHA1 is a parameter, and so are the tables of Python's
-- `str.isspace` and `str.isdigit`, for one character.
pub mod Code
pub mod Replay
mod Tests
use ultimate_enigma.Prelude.{
  ℕ, zero, suc, ◌+◌, ◌-◌, ◌*◌, ◌/◌, ◌%◌, List, [], ◌∷◌, ◌++◌, length, take, Bool, true, false, ◌&&◌,
  not, ltb, leb, ◌==◌, if◌then◌else◌, Option, none, some, Result, ok, err, Error, require,
}
use ultimate_enigma.Action.{Action, lift, give, get, put, ◌>>=◌, ◌>>◌}
use ultimate_enigma.Bytes.{Bytes}
use ultimate_enigma.Utf8.{Text}
use Code.{secret_of, code_now, fits}

-- The source's `_last_counter` starts at -1, and here it is one more: the least counter that is
-- still accepted. `persisted` is what the callback was given, if there is one.
pub record TotpService : Type 0 where
  pub secret : Option Bytes
  pub next_counter : ℕ
  pub persisted : Option (List ℕ)

abbrev pub initial : TotpService
initial = record { secret = none; next_counter = 0; persisted = none }

-- `initial_counter` is given plus one, too.
unfoldable pub set_counter_persistence : ℕ → TotpService → TotpService
set_counter_persistence initial_next s =
    if ltb s.next_counter initial_next
    then record s { persisted = some []; next_counter = initial_next }
    else record s { persisted = some [] }

unfoldable pub set_secret : Bytes → Action TotpService (Unit {0})
set_secret secret = do
  lift (
      require (leb 20 (length secret))
        (Error.totp_validation_error "TOTP secret must be at least 20 bytes"))
  s ← get
  put (record s { secret = some (take 20 secret); next_counter = 0 })

unfoldable pub set_raw_secret : Bytes → Action TotpService (Unit {0})
set_raw_secret secret = do
  lift (
      require (length secret == 20)
        (Error.totp_validation_error "Raw TOTP secret must be exactly 20 bytes"))
  s ← get
  put (record s { secret = some secret; next_counter = 0 })

unfoldable pub clear_secret : TotpService → TotpService
clear_secret s = record s { secret = none }

unfoldable pub has_secret : TotpService → Bool
has_secret s = elim s.secret [ none ↦ false | some secret ↦ true ]

abbrev pub totp_interval : ℕ
totp_interval = 30

unfoldable pub time_remaining : ℕ → ℕ
time_remaining now = totp_interval - now % totp_interval

-- `_last_counter = candidate` and the callback.
abbrev pub log_counter : Option (List ℕ) → ℕ → Option (List ℕ)
log_counter none counter = none
log_counter (some counters) counter = some (counters ++ counter ∷ [])

abbrev pub advance : ℕ → TotpService → TotpService
advance counter s = record s {
  next_counter = counter + 1;
  persisted = log_counter s.persisted counter;
}

-- A step before the first is a negative counter.
abbrev pub step_before : ℕ → Option ℕ
step_before zero = none
step_before (suc counter) = some counter

module _ (digest : Bytes → Bytes → Bytes) (is_space is_digit : ℕ → Bool) where
  unfoldable pub generate : ℕ → TotpService → Result Text
  generate timestamp s = code_now digest s.secret (timestamp / totp_interval)

  abbrev pub all_digits : Text → Bool
  all_digits [] = true
  all_digits (c ∷ cs) = is_digit c && all_digits cs

  abbrev pub skip_spaces : Text → Text
  skip_spaces [] = []
  skip_spaces (c ∷ cs) = let rest = skip_spaces cs in if is_space c then rest else c ∷ cs

  abbrev pub reversed : Text → Text → Text
  reversed acc [] = acc
  reversed acc (c ∷ cs) = reversed (c ∷ acc) cs

  -- `code.strip()`
  unfoldable pub strip : Text → Text
  strip code = reversed [] (skip_spaces (reversed [] (skip_spaces code)))

  -- The code fits the candidate: what the body of the `if` does.
  unfoldable pub accept : Bool → ℕ → Action TotpService Bool
  accept track_replay counter s =
      if not track_replay
      then (ok true, s)
      else if ltb counter s.next_counter
      then (ok false, s)
      else (ok true, advance counter s)

  -- `for offset in range(-TOTP_DRIFT, TOTP_DRIFT + 1)`
  unfoldable pub try_candidates : Bytes → Text → Bool → List (Option ℕ) → Action TotpService Bool
  try_candidates secret code track_replay [] = give false
  try_candidates secret code track_replay (none ∷ candidates) = lift (err Error.struct_error)
  try_candidates secret code track_replay (some counter ∷ candidates) = do
    equal ← lift (fits digest secret code counter)
    elim equal [
      | true ↦ accept track_replay counter
      | false ↦ try_candidates secret code track_replay candidates
    ]

  unfoldable pub verify : Text → ℕ → Bool → Action TotpService Bool
  verify code timestamp track_replay = do
    s ← get
    secret ← lift (secret_of s.secret)
    let stripped = strip code
    let base = timestamp / totp_interval
    elim (length stripped == 6 && all_digits stripped) [
      | false ↦ give false
      | true ↦
          try_candidates secret stripped track_replay
            (step_before base ∷ some base ∷ some (base + 1) ∷ [])
    ]
