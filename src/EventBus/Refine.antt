-- ===== src/EventBus/Refine.antt =====
-- The event bus of services/event_bus.py refines a table of who is subscribed to what.
use ultimate_enigma.Prelude.{
  ℕ, suc, ◌+◌, ◌≡◌, refl, sym, ap, ◌∙◌, List, [], ◌∷◌, length, ◌==◌, Bool, false, ◌&&◌, Bool-cases,
  inl, inr, Option, none, some, Result, if◌then◌else◌, arith,
}
use ultimate_enigma.Action.{Action}
use ultimate_enigma.Bytes.{same_bytes, same_bytes_sound}
use ultimate_enigma.Utf8.{Text}
use ultimate_enigma.EventBus.{
  Entry, EventBus, new_bus, entries_of, set_entries, without_handler, added, subscribe, unsubscribe,
  unsubscribe_all, clear, logged, deliver, deliver_each, publish,
}
use ultimate_enigma.EventBus.Entries.{
  keep_or, tally, listed, tally-without, ==_sound, tally-without_other, tally-added,
  tally-added_other, entries_of-set_entries, entries_of-set_entries_other, entries_of-map,
}

-- The operations that change the subscriptions.
pub data Operation : Type 0 where
  subscribing : Text → ℕ → Bool → Operation
  unsubscribing : Text → ℕ → Operation
  unsubscribing_all : ℕ → Operation
  clearing : Operation

abbrev pub run : Operation → EventBus → EventBus
run (subscribing event handler thread_safe) bus = subscribe event handler thread_safe bus
run (unsubscribing event handler) bus = unsubscribe event handler bus
run (unsubscribing_all handler) bus = unsubscribe_all handler bus
run clearing bus = clear bus

abbrev pub runs : List Operation → EventBus → EventBus
runs [] bus = bus
runs (operation ∷ operations) bus = runs operations (run operation bus)

-- The abstract state: whether a handler is subscribed to an event, and in which way.
abbrev pub Table : Type 0
Table = Text → ℕ → Option Bool

abbrev pub specified : Operation → Table → Table
specified (subscribing event handler thread_safe) table e h =
    if same_bytes event e && handler == h then keep_or (table e h) thread_safe else table e h
specified (unsubscribing event handler) table e h =
    if same_bytes event e && handler == h then none else table e h
specified (unsubscribing_all handler) table e h = if handler == h then none else table e h
specified clearing table e h = none

abbrev pub specified_all : List Operation → Table → Table
specified_all [] table = table
specified_all (operation ∷ operations) table = specified_all operations (specified operation table)

abbrev pub times : Option Bool → ℕ
times none = 0
times (some thread_safe) = 1

-- Each subscription of the table has one entry, and no other handler has any.
abbrev Represents : EventBus → Table → Type 0
Represents bus table = (e : Text) (h : ℕ) → tally h (entries_of e bus) ≡ listed (table e h)

-- Both ways that an event and a handler can differ from those of the call.
changed_at :
    (event e : Text) (handler h : ℕ) (bus : EventBus) (entries : List Entry) (old new : Option Bool)
    → (event ≡ e → handler ≡ h → tally h entries ≡ listed new)
    → ((handler == h) ≡ false → tally h entries ≡ tally h (entries_of event bus))
    → tally h (entries_of e bus) ≡ listed old
    → tally h (entries_of e (set_entries event entries bus))
      ≡ listed (if same_bytes event e && handler == h then new else old)
changed_at event e handler h bus entries old new hit miss before =
    elim (Bool-cases (same_bytes event e)) [
      | inr other ↦
          ap (tally h) (entries_of-set_entries_other event e entries bus other)
          ∙ before
          ∙ sym (ap (λ b. listed (if b && handler == h then new else old)) other)
      | inl same ↦
          let at_event : tally h (entries_of e (set_entries event entries bus)) ≡ tally h entries =
            ap (λ x. tally h (entries_of x (set_entries event entries bus)))
              (sym (same_bytes_sound event e same))
            ∙ ap (tally h) (entries_of-set_entries event entries bus) in
          let here : (c : Bool)
              → listed (if same_bytes event e && c then new else old)
                ≡ listed (if c then new else old) =
            λ c. ap (λ b. listed (if b && c then new else old)) same in
          elim (Bool-cases (handler == h)) [
            | inl hits ↦
                at_event
                ∙ hit (same_bytes_sound event e same) (==_sound handler h hits)
                ∙ sym (here (handler == h) ∙ ap (λ b. listed (if b then new else old)) hits)
            | inr misses ↦
                at_event
                ∙ miss misses
                ∙ ap (λ x. tally h (entries_of x bus)) (same_bytes_sound event e same)
                ∙ before
                ∙ sym (here (handler == h) ∙ ap (λ b. listed (if b then new else old)) misses)
          ]
    ]

run-Represents :
    (operation : Operation) (bus : EventBus) (table : Table)
    → Represents bus table
    → Represents (run operation bus) (specified operation table)
unfolding subscribe unsubscribe unsubscribe_all clear
run-Represents (subscribing event handler t) bus table r e h =
    changed_at event e handler h bus (added handler t (entries_of event bus)) (table e h)
      (keep_or (table e h) t)
      (λ at who.
        ap (λ k. tally k (added handler t (entries_of event bus))) (sym who)
        ∙ tally-added handler t (entries_of event bus) (table event handler) (r event handler)
        ∙ ap (λ x. listed (keep_or (table x handler) t)) at
        ∙ ap (λ k. listed (keep_or (table e k) t)) who)
      (tally-added_other handler h t (entries_of event bus)) (r e h)
run-Represents (unsubscribing event handler) bus table r e h =
    changed_at event e handler h bus (without_handler handler (entries_of event bus)) (table e h)
      none
      (λ at who.
        ap (λ k. tally k (without_handler handler (entries_of event bus))) (sym who)
        ∙ tally-without handler (entries_of event bus))
      (tally-without_other handler h (entries_of event bus)) (r e h)
run-Represents (unsubscribing_all handler) bus table r e h =
    ap (tally h) (entries_of-map handler e bus.subscribers) ∙ elim (Bool-cases (handler == h)) [
      | inl hit ↦
          ap (λ k. tally k (without_handler handler (entries_of e bus)))
            (sym (==_sound handler h hit))
          ∙ tally-without handler (entries_of e bus)
          ∙ sym (ap (λ b. listed (if b then none else table e h)) hit)
      | inr miss ↦
          tally-without_other handler h (entries_of e bus) miss
          ∙ r e h
          ∙ sym (ap (λ b. listed (if b then none else table e h)) miss)
    ]
run-Represents clearing bus table r e h = refl

runs-Represents :
    (operations : List Operation) (bus : EventBus) (table : Table)
    → Represents bus table
    → Represents (runs operations bus) (specified_all operations table)
runs-Represents [] bus table r = r
runs-Represents (operation ∷ operations) bus table r =
    runs-Represents operations (run operation bus) (specified operation table)
      (run-Represents operation bus table r)

abbrev pub count : ℕ → List ℕ → ℕ
count h [] = 0
count h (k ∷ calls) = let rest = count h calls in if k == h then suc rest else rest

module _ (outcome : ℕ → Result (Unit {0})) where
  -- A handler that only leaves a trace, and may raise.
  abbrev pub traced : ℕ → Action (EventBus × List ℕ) (Unit {0})
  traced handler (bus, calls) = (outcome handler, (bus, handler ∷ calls))

  deliver-traced :
      (entry : Entry) (root : Bool) (bus : EventBus) (calls : List ℕ)
      → deliver (λ w. w.0) traced traced entry root (bus, calls)
        ≡ (outcome entry.handler, (bus, entry.handler ∷ calls))
  deliver-traced entry root bus calls = elim (Bool-cases (entry.thread_safe && root)) [
    | inl later ↦ rw later refl
    | inr now ↦ rw now refl
  ]

  deliver_each-count :
      (h : ℕ) (entries : List Entry) (bus : EventBus) (calls : List ℕ)
      → count h (deliver_each (λ w. w.0) traced traced entries (bus, calls)).1
        ≡ length (tally h entries) + count h calls
  deliver_each-count h [] bus calls = omega arith
  deliver_each-count h (entry ∷ entries) bus calls =
      ap
        (λ o.
          count h
            (deliver_each (λ w. w.0) traced traced entries (logged (λ w. w.0) traced traced o)).1)
        (deliver-traced entry bus.root bus calls)
      ∙ deliver_each-count h entries bus (entry.handler ∷ calls)
      ∙ elim (Bool-cases (entry.handler == h)) [
        | inl hit ↦ rw (hit, tally) (omega arith)
        | inr miss ↦ rw (miss, tally) refl
      ]

  listed-times : (o : Option Bool) → length (listed o) ≡ times o
  listed-times none = refl
  listed-times (some t) = refl

  -- After any subscriptions and cancellations, publishing an event calls, or hands to the main
  -- loop, each handler exactly once if the abstract table has it subscribed to the event, and never
  -- otherwise, whichever handlers raise.
  pub publish-specified :
      (operations : List Operation) (root : Bool) (event : Text) (h : ℕ)
      → count h
          (publish
            (λ w. w.0)
            traced
            traced
            event
            (runs operations (record new_bus { root = root }), [])).1
        ≡ times (specified_all operations (λ e k. none) event h)
  unfolding publish
  publish-specified operations root event h =
      let bus = runs operations (record new_bus { root = root }) in
      omega (
        arith,
        deliver_each-count h (entries_of event bus) bus [],
        ap length (
            runs-Represents operations (record new_bus { root = root }) (λ e k. none) (λ e k. refl)
              event h),
        listed-times (specified_all operations (λ e k. none) event h),
      )
