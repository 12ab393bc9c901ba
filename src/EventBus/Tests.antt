-- ===== src/EventBus/Tests.antt =====
-- Witnesses and tests for services/event_bus.py.
use ultimate_enigma.Prelude.{
  ℕ, ◌≡◌, List, [], ◌∷◌, true, false, Result, ok, err, Error, ◌==◌, if◌then◌else◌,
}
use ultimate_enigma.Utf8.{Text}
use ultimate_enigma.EventBus.{new_bus, publish}
use ultimate_enigma.EventBus.Refine
use ultimate_enigma.EventBus.Refine.{
  Operation, subscribing, unsubscribing, unsubscribing_all, runs, specified_all, times, traced,
  count,
}

abbrev locked : Text
locked = b'l' ∷ b'o' ∷ b'c' ∷ b'k' ∷ []

abbrev friend_added : Text
friend_added = b'a' ∷ b'd' ∷ b'd' ∷ []

abbrev operations : List Operation
operations =
    subscribing locked 1 true
    ∷ subscribing locked 2 false
    ∷ subscribing locked 1 false
    ∷ subscribing friend_added 1 false
    ∷ subscribing friend_added 3 false
    ∷ unsubscribing_all 3
    ∷ unsubscribing friend_added 1
    ∷ []

-- The second handler raises.
abbrev outcome : ℕ → Result (Unit {0})
outcome h = if h == 2 then err Error.key_error else ok tt

publish-specified_example :
    count 1
      (publish
        (λ w. w.0)
        (traced outcome)
        (traced outcome)
        locked
        (runs operations (record new_bus { root = true }), [])).1
    ≡ 1
publish-specified_example = Refine.publish-specified outcome operations true locked 1
