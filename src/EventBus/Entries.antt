-- ===== src/EventBus/Entries.antt =====
-- The entries of a handler in services/event_bus.py, before and after an operation.
use ultimate_enigma.Prelude.{
  ℕ, ◌≡◌, refl, sym, ap, ◌∙◌, List, [], ◌∷◌, ◌++◌, append_nil, map, ◌==◌, ==_refl, Bool, true,
  false, Bool-cases, inl, inr, Option, none, some, if◌then◌else◌, arith,
}
use ultimate_enigma.Bytes.{same_bytes, same_bytes_refl}
use ultimate_enigma.Utf8.{Text}
use ultimate_enigma.Dict.{lookup, lookup-insert, lookup-insert_other}
use ultimate_enigma.RatchetService.{friend_names}
use ultimate_enigma.EventBus.{
  Entry, EventBus, entries_or_empty, entries_of, set_entries, is_subscribed, without_handler, added,
}

abbrev pub keep_or : Option Bool → Bool → Option Bool
keep_or none thread_safe = some thread_safe
keep_or (some old) thread_safe = some old

-- The entries of one handler.
abbrev pub tally : ℕ → List Entry → List Bool
tally h [] = []
tally h (entry ∷ entries) =
    let rest = tally h entries in if entry.handler == h then entry.thread_safe ∷ rest else rest

abbrev pub listed : Option Bool → List Bool
listed none = []
listed (some thread_safe) = thread_safe ∷ []

abbrev pub has_any : List Bool → Bool
has_any [] = false
has_any (b ∷ bs) = true

tally-append : (h : ℕ) (xs ys : List Entry) → tally h (xs ++ ys) ≡ tally h xs ++ tally h ys
tally-append h [] ys = refl
tally-append h (x ∷ xs) ys = elim (Bool-cases (x.handler == h)) [
  | inl hit ↦ rw (hit, tally-append h xs ys)
  | inr miss ↦ rw (miss, tally-append h xs ys)
]

is_subscribed-tally : (h : ℕ) (xs : List Entry) → is_subscribed h xs ≡ has_any (tally h xs)
is_subscribed-tally h [] = refl
is_subscribed-tally h (x ∷ xs) = elim (Bool-cases (x.handler == h)) [
  | inl hit ↦ rw hit
  | inr miss ↦ rw (miss, is_subscribed-tally h xs)
]

pub tally-without : (h : ℕ) (xs : List Entry) → tally h (without_handler h xs) ≡ []
tally-without h [] = refl
tally-without h (x ∷ xs) = elim (Bool-cases (x.handler == h)) [
  | inl hit ↦ rw (hit, tally-without h xs)
  | inr miss ↦ rw (miss, miss, tally-without h xs)
]

pub ==_sound : (a b : ℕ) → (a == b) ≡ true → a ≡ b
==_sound a b h = ground arith

==_other : (a h k : ℕ) → (h == k) ≡ false → (a == h) ≡ true → (a == k) ≡ false
==_other a h k ne e = ap (λ n. n == k) (==_sound a h e) ∙ ne

pub tally-without_other :
    (h k : ℕ) (xs : List Entry) → (h == k) ≡ false → tally k (without_handler h xs) ≡ tally k xs
tally-without_other h k [] ne = refl
tally-without_other h k (x ∷ xs) ne = elim (Bool-cases (x.handler == h)) [
  | inl hit ↦ rw (hit, ==_other x.handler h k ne hit) (tally-without_other h k xs ne)
  | inr miss ↦
      ap (tally k) (kept miss)
      ∙ ap (λ rest. if x.handler == k then x.thread_safe ∷ rest else rest)
          (tally-without_other h k xs ne)
]
  where
    kept : (x.handler == h) ≡ false → without_handler h (x ∷ xs) ≡ x ∷ without_handler h xs
    kept miss = rw miss

pub tally-added :
    (h : ℕ) (t : Bool) (xs : List Entry) (o : Option Bool)
    → tally h xs ≡ listed o
    → tally h (added h t xs) ≡ listed (keep_or o t)
tally-added h t xs none e =
    ap (λ b. tally h (if b then xs else xs ++ record { handler = h; thread_safe = t } ∷ []))
      (is_subscribed-tally h xs ∙ ap has_any e)
    ∙ tally-append h xs (record { handler = h; thread_safe = t } ∷ [])
    ∙ ap (λ l. l ++ tally h (record { handler = h; thread_safe = t } ∷ [])) e
    ∙ ap (λ b. if b then t ∷ [] else []) (==_refl h)
tally-added h t xs (some old) e =
    ap (λ b. tally h (if b then xs else xs ++ record { handler = h; thread_safe = t } ∷ []))
      (is_subscribed-tally h xs ∙ ap has_any e)
    ∙ e

pub tally-added_other :
    (h k : ℕ) (t : Bool) (xs : List Entry) → (h == k) ≡ false → tally k (added h t xs) ≡ tally k xs
tally-added_other h k t xs ne = elim (Bool-cases (is_subscribed h xs)) [
  | inl already ↦ rw already refl
  | inr fresh ↦
      ap (λ b. tally k (if b then xs else xs ++ record { handler = h; thread_safe = t } ∷ [])) fresh
      ∙ tally-append k xs (record { handler = h; thread_safe = t } ∷ [])
      ∙ ap (λ b. tally k xs ++ (if b then t ∷ [] else [])) ne
      ∙ append_nil (tally k xs)
]

pub entries_of-set_entries :
    (event : Text) (entries : List Entry) (bus : EventBus)
    → entries_of event (set_entries event entries bus) ≡ entries
entries_of-set_entries event entries bus =
    ap entries_or_empty (lookup-insert friend_names event entries bus.subscribers)

pub entries_of-set_entries_other :
    (event e : Text) (entries : List Entry) (bus : EventBus)
    → same_bytes event e ≡ false
    → entries_of e (set_entries event entries bus) ≡ entries_of e bus
entries_of-set_entries_other event e entries bus other = ap entries_or_empty (
    lookup-insert_other friend_names e event entries bus.subscribers
      (λ same. differ (sym other ∙ ap (λ x. same_bytes x e) same ∙ same_bytes_refl e)))
  where
    differ : false ≡ true → ⊥
    differ h = cc

pub entries_of-map :
    (h : ℕ) (e : Text) (rows : List (Text × List Entry))
    → entries_or_empty (lookup friend_names e (map (λ r. (r.0, without_handler h r.1)) rows))
      ≡ without_handler h (entries_or_empty (lookup friend_names e rows))
unfolding friend_names
entries_of-map h e [] = refl
entries_of-map h e ((event, entries) ∷ rows) = elim (Bool-cases (same_bytes event e)) [
  | inl hit ↦ rw (hit, lookup)
  | inr miss ↦ rw (miss, lookup) (entries_of-map h e rows)
]
