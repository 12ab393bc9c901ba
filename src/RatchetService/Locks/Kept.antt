-- ===== src/RatchetService/Locks/Kept.antt =====
-- A step of one thread on one lock, as far as it keeps the locks orderly.
use ultimate_enigma.Prelude.{
  ℕ, ◌+◌, ◌<◌, ◌≡◌, sym, ap, ◌∙◌, subst, inl, inr, true, false, ◌||◌, Bool-cases, ◌==◌, ==_iff,
  if◌then◌else◌, some,
}
use ultimate_enigma.Bytes.{same_bytes, same_bytes_sound}
use ultimate_enigma.Utf8.{Text}
use ultimate_enigma.RatchetService.Locks.{
  Lock, Locks, owns, is_free, friend_lock, set_lock, unique_names,
}
use ultimate_enigma.RatchetService.Locks.Order.{name_lt_irrefl, unique_names-IsSorted, IsSorted-lt}
use ultimate_enigma.RatchetService.Locks.View.{friend_lock-set_lock, friend_lock-set_other}
use ultimate_enigma.RatchetService.Locks.Waiting.{
  Acquirer, System, update, name_at, Holds, IsOrderly,
}

pub no_clash : {A : Type 0} → false ≡ true → A
no_clash h = absurd (let no : false ≡ true = h in clash no)
  where
    clash : false ≡ true → ⊥
    clash k = cc

pub some_injective : {a b : Text} → some a ≡ some b → a ≡ b
some_injective h = cc

abbrev pub taken : ℕ → Lock → Lock
taken t lock = record { owner = some t; depth = lock.depth + 1 }

module _ (lower : Text → Text) where
  -- A name stands at one place.
  one_place :
      (a : Acquirer) (i j : ℕ) (n : Text)
      → name_at lower a i ≡ some n
      → name_at lower a j ≡ some n
      → i < j
      → ⊥
  one_place a i j n ei ej lt =
      let circle =
        IsSorted-lt lower (unique_names lower a.names) i j n n (unique_names-IsSorted lower a.names)
          lt ei ej in
      no_clash (sym (name_lt_irrefl lower n) ∙ circle)

  module _ (s : System) (o : IsOrderly lower s) where
    pub Holds-update :
        (t u : ℕ) (m : Text) (a : Acquirer)
        → ((Holds lower (s.threads t) m) → Holds lower a m)
        → Holds lower (s.threads u) m
        → Holds lower (update t a s.threads u) m
    Holds-update t u m a keep h = elim (Bool-cases (u == t)) [
      | inr other ↦ subst (λ b. Holds lower (if b then a else s.threads u) m) (sym other) h
      | inl same ↦
          subst (λ b. Holds lower (if b then a else s.threads u) m) (sym same)
            (keep (subst (λ k. Holds lower (s.threads k) m) ((==_iff u t).0 same) h))
    ]

    -- A lock that a thread can acquire for the first time is free.
    pub depth_before :
        (t : ℕ) (n : Text)
        → name_at lower (s.threads t) (s.threads t).done ≡ some n
        → (is_free (friend_lock n s.locks) || owns t (friend_lock n s.locks)) ≡ true
        → (friend_lock n s.locks).depth ≡ 0
    depth_before t n wanted h = elim (Bool-cases (is_free (friend_lock n s.locks))) [
      | inl idle ↦ o.idle n idle
      | inr busy ↦
          let owned = sym (ap (λ b. b || owns t (friend_lock n s.locks)) busy) ∙ h in
          let ((i, below, place), once) = o.held t n owned in
          absurd (one_place (s.threads t) i (s.threads t).done n place wanted below)
    ]

    -- One thread and one lock change, and the thread keeps its other locks.
    pub set-IsOrderly :
        (t : ℕ) (n : Text) (a : Acquirer) (lock : Lock) (g : Locks)
        → ((m : Text) → friend_lock m g ≡ friend_lock m s.locks)
        → ((u : ℕ) → owns u lock ≡ true → Holds lower (update t a s.threads u) n × (lock.depth ≡ 1))
        → (is_free lock ≡ true → lock.depth ≡ 0)
        → ((m : Text) → same_bytes n m ≡ false → Holds lower (s.threads t) m → Holds lower a m)
        → IsOrderly lower (record { threads = update t a s.threads; locks = set_lock n lock g })
    set-IsOrderly t n a lock g same_view mine idle keep =
        let at_n : friend_lock n (set_lock n lock g) ≡ lock = friend_lock-set_lock n lock g in
        let at_other : (m : Text)
            → same_bytes n m ≡ false
            → friend_lock m (set_lock n lock g) ≡ friend_lock m s.locks =
          λ m other. friend_lock-set_other n m lock g other ∙ same_view m in
        record {
          held = λ u m owned. elim (Bool-cases (same_bytes n m)) [
            | inl same ↦
                let e = same_bytes_sound n m same in
                subst
                  (λ k.
                    owns u (friend_lock k (set_lock n lock g)) ≡ true
                    → Holds lower (update t a s.threads u) k
                      × ((friend_lock k (set_lock n lock g)).depth ≡ 1))
                  e
                  (λ owned_n.
                    let (h, once) = mine u (sym (ap (owns u) at_n) ∙ owned_n) in
                    (h, ap (λ l. l.depth) at_n ∙ once))
                  owned
            | inr other ↦
                let (h, once) = o.held u m (sym (ap (owns u) (at_other m other)) ∙ owned) in
                (Holds-update t u m a (keep m other) h, ap (λ l. l.depth) (at_other m other) ∙ once)
          ];
          idle = λ m is_idle. elim (Bool-cases (same_bytes n m)) [
            | inl same ↦
                let e = same_bytes_sound n m same in
                subst
                  (λ k.
                    is_free (friend_lock k (set_lock n lock g)) ≡ true
                    → (friend_lock k (set_lock n lock g)).depth ≡ 0)
                  e (λ idle_n. ap (λ l. l.depth) at_n ∙ idle (sym (ap is_free at_n) ∙ idle_n))
                  is_idle
            | inr other ↦
                ap (λ l. l.depth) (at_other m other)
                ∙ o.idle m (sym (ap is_free (at_other m other)) ∙ is_idle)
          ];
        }
