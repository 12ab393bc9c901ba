-- ===== src/EventBus.antt =====
-- services/event_bus.py: `EventBus`. A handler stands for the object that `is` compares, and `Call`
-- is what calling it, or handing it to the main loop, does: an action on a world that holds the
-- bus, so that a handler may use the bus itself.
pub mod Entries
pub mod Refine
mod Tests
use ultimate_enigma.Prelude.{
  ℕ, ◌+◌, List, [], ◌∷◌, ◌++◌, length, map, ◌==◌, not, Bool, true, false, ◌&&◌, Option, none, some,
  Result, ok, err, if◌then◌else◌,
}
use ultimate_enigma.Action.{Action}
use ultimate_enigma.Bytes.{same_bytes}
use ultimate_enigma.Utf8.{Text}
use ultimate_enigma.Dict.{lookup, insert}
use ultimate_enigma.RatchetService.{friend_names}

-- A dictionary of `_subscribers`.
pub record Entry : Type 0 where
  pub handler : ℕ
  pub thread_safe : Bool

pub record EventBus : Type 0 where
  pub subscribers : List (Text × List Entry)
  -- Whether a root widget is configured.
  pub root : Bool

abbrev pub new_bus : EventBus
new_bus = record { subscribers = []; root = false }

unfoldable pub set_root : EventBus → EventBus
set_root bus = record bus { root = true }

abbrev pub entries_or_empty : Option (List Entry) → List Entry
entries_or_empty none = []
entries_or_empty (some entries) = entries

-- `self._subscribers.get(event, [])`
abbrev pub entries_of : Text → EventBus → List Entry
entries_of event bus = entries_or_empty (lookup friend_names event bus.subscribers)

abbrev pub set_entries : Text → List Entry → EventBus → EventBus
set_entries event entries bus = record bus {
  subscribers = insert friend_names event entries bus.subscribers;
}

abbrev pub is_subscribed : ℕ → List Entry → Bool
is_subscribed handler [] = false
is_subscribed handler (entry ∷ entries) =
    let rest = is_subscribed handler entries in if entry.handler == handler then true else rest

abbrev pub without_handler : ℕ → List Entry → List Entry
without_handler handler [] = []
without_handler handler (entry ∷ entries) =
    let rest = without_handler handler entries in
    if entry.handler == handler then rest else entry ∷ rest

abbrev pub added : ℕ → Bool → List Entry → List Entry
added handler thread_safe entries =
    if is_subscribed handler entries
    then entries
    else entries ++ record { handler = handler; thread_safe = thread_safe } ∷ []

-- Reading `self._subscribers[event]` of the defaultdict adds the event if it is missing.
unfoldable pub subscribe : Text → ℕ → Bool → EventBus → EventBus
subscribe event handler thread_safe bus =
    set_entries event (added handler thread_safe (entries_of event bus)) bus

unfoldable pub unsubscribe : Text → ℕ → EventBus → EventBus
unsubscribe event handler bus =
    set_entries event (without_handler handler (entries_of event bus)) bus

unfoldable pub unsubscribe_all : ℕ → EventBus → EventBus
unsubscribe_all handler bus = record bus {
  subscribers = map (λ e. (e.0, without_handler handler e.1)) bus.subscribers;
}

unfoldable pub clear : EventBus → EventBus
clear bus = record bus { subscribers = [] }

abbrev pub count_all : List (Text × List Entry) → ℕ
count_all [] = 0
count_all ((event, entries) ∷ rest) = length entries + count_all rest

-- No event, or an empty one, counts all.
unfoldable pub subscriber_count : Option Text → EventBus → ℕ
subscriber_count none bus = count_all bus.subscribers
subscriber_count (some []) bus = count_all bus.subscribers
subscriber_count (some (c ∷ event)) bus = length (entries_of (c ∷ event) bus)

module _ {W : Type 0} (bus_of : W → EventBus) (call after : ℕ → Action W (Unit {0})) where
  abbrev pub deliver : Entry → Bool → Action W (Unit {0})
  deliver entry root = if entry.thread_safe && root then after entry.handler else call entry.handler

  -- `except Exception`, with a log entry.
  abbrev pub logged : Result (Unit {0}) × W → W
  logged (result, world) = world

  -- The loop over the entries; the root is read at each.
  abbrev pub deliver_each : List Entry → W → W
  deliver_each [] world = world
  deliver_each (entry ∷ entries) world =
      deliver_each entries (logged (deliver entry (bus_of world).root world))

  -- A copy of the entries is gone through.
  unfoldable pub publish : Text → W → W
  publish event world = deliver_each (entries_of event (bus_of world)) world
