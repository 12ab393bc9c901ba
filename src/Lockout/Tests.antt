-- ===== src/Lockout/Tests.antt =====
-- Witnesses and tests for security/lockout.py, with two numbers for the text of an object.
use ultimate_enigma.Prelude.{
  ◌+◌, ◌≡◌, ◌≤◌, refl, [], ◌∷◌, none, some, ok, err, Error, Result, replicate, arith,
}
use ultimate_enigma.Utf8.{Text}
use ultimate_enigma.Lockout
use ultimate_enigma.Lockout.{
  LockoutManager, Json, Document, object, no_object, string, number, other_value, get_delay,
  save_state, load_state, new_manager, record_failure, record_failures, reset,
}
use ultimate_enigma.Lockout.Restart
use ultimate_enigma.Lockout.Restart.{Lawful, answered, failing, unlocked}

-- One number alone is an object whose lockout has a wrong type, and two are the object of both.
abbrev read_numbers : Text → Result Document
read_numbers [] = err Error.json_decode_error
read_numbers (n ∷ []) = ok (object (some (number n)) (some other_value))
read_numbers (n ∷ t ∷ text) = ok (object (some (number n)) (some (number t)))

abbrev numbers : Json
numbers = record {
  dumps = λ written. written.failures ∷ written.locked_until ∷ [];
  loads = read_numbers;
  float = λ text. err (Error.value_error "could not convert string to float");
}

numbers-Lawful : Lawful numbers
numbers-Lawful = record { loads-dumps = λ written. refl }

abbrev fresh : LockoutManager
fresh = unlocked none

-- Six failures in a row cost ten seconds.
delay_after_six : get_delay 50 (record_failures numbers (replicate 6 (answered, 7)) fresh) ≡ 10
unfolding get_delay record_failure save_state
delay_after_six = refl

-- A row that is no JSON gives no lockout; one with a value of a wrong type is raised, halfway.
broken_row : new_manager numbers answered (some []) ≡ (ok tt, unlocked (some []))
unfolding new_manager load_state
broken_row = refl

wrong_row :
    new_manager numbers answered (some (3 ∷ []))
    ≡ (err Error.type_error, record fresh { failed_attempts = 3; row = some (3 ∷ []) })
unfolding new_manager load_state
wrong_row = refl

get_delay-record_failure_example :
    get_delay 1000
      (record_failure numbers
        (failing Error.connection_error)
        900
        (record_failures numbers (replicate 14 (answered, 7)) (reset numbers answered fresh).1)).1
    ≡ 3500
get_delay-record_failure_example =
    Lockout.get_delay-record_failure numbers answered (failing Error.connection_error)
      (replicate 14 (answered, 7)) 900 1000 fresh (omega arith) (omega arith)

abbrev nearly : LockoutManager
nearly = record fresh { failed_attempts = 14 }

abbrev locked : LockoutManager
locked = record { failed_attempts = 15; locked_until = 4500; row = some (15 ∷ 4500 ∷ []) }

new_manager-record_failure_example :
    (new_manager numbers answered (some (15 ∷ 4500 ∷ [])) ≡ (ok tt, locked))
    × (15 ≡ 14 + 1)
    × (new_manager numbers (failing Error.database_error) (some (15 ∷ 4500 ∷ []))
        ≡ (ok tt, unlocked (some (15 ∷ 4500 ∷ []))))
unfolding record_failure save_state
new_manager-record_failure_example =
    Restart.new_manager-record_failure numbers numbers-Lawful nearly 900 Error.database_error

get_delay-monotone_example :
    get_delay 20 (record fresh { failed_attempts = 6 })
    ≤ get_delay 20 (record fresh { failed_attempts = 9 })
get_delay-monotone_example =
    Lockout.get_delay-monotone 20 (record fresh { failed_attempts = 6 })
      (record fresh { failed_attempts = 9 }) (omega arith) (omega arith) (omega arith)
