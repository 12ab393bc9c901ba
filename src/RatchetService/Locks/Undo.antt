-- ===== src/RatchetService/Locks/Undo.antt =====
-- Releases undo what was acquired, the last lock first.
use ultimate_enigma.Prelude.{
  ℕ, ◌+◌, ◌-◌, ◌≤◌, ◌≡◌, refl, sym, ap, ◌∙◌, subst, inl, inr, List, [], ◌∷◌, Bool, true, false,
  ◌||◌, Bool-cases, ◌==◌, ==_refl, ==_iff, if◌then◌else◌, Option, some, none, Result, ok, err,
  Error, arith,
}
use ultimate_enigma.Action.{after}
use ultimate_enigma.Bytes.{same_bytes, same_bytes_sound}
use ultimate_enigma.Utf8.{Text}
use ultimate_enigma.RatchetService.Locks.{
  Lock, Locks, free, owns, is_free, friend_lock, set_lock, release, released, release_all,
}
use ultimate_enigma.RatchetService.Locks.View.{friend_lock-set_lock, friend_lock-set_other}

-- A lock is held or free, not both.
pub record IsSound (lock : Lock) : Type 0 where
  pub unheld : is_free lock ≡ true → lock ≡ free
  pub counted : is_free lock ≡ false → 1 ≤ lock.depth

-- The locks of all friends are the same.
abbrev pub SameLocks : Locks → Locks → Type 0
SameLocks s t = (m : Text) → friend_lock m s ≡ friend_lock m t

pub clash : {A : Type 0} → false ≡ true → A
clash h = absurd (no h)
  where
    no : false ≡ true → ⊥
    no k = cc

module _ (thread : ℕ) where
  abbrev pub once_more : Lock → Lock
  once_more lock = record { owner = some thread; depth = lock.depth + 1 }

  released-once_more :
      (lock : Lock)
      → IsSound lock
      → (is_free lock || owns thread lock) ≡ true
      → released (once_more lock) ≡ lock
  released-once_more lock sound can = elim (Bool-cases (is_free lock)) [
    | inl unheld ↦ let e = sound.unheld unheld in ap (λ l. released (once_more l)) e ∙ sym e
    | inr held ↦
        let some_depth = sound.counted held in
        let more : (lock.depth + 1 == 1) ≡ false = ground arith in
        let owned = sym (ap (λ b. b || owns thread lock) held) ∙ can in
        ap (λ b. if b then free else record (once_more lock) { depth = lock.depth + 1 - 1 }) more
        ∙ same_owner lock owned
  ]
    where
      owner_is :
          (o : Option ℕ)
          → elim o as (λ x. Bool) [ none ↦ false | some other ↦ other == thread ] ≡ true
          → o ≡ some thread
      owner_is none h = clash h
      owner_is (some other) h = ap some ((==_iff other thread).0 h)

      same_owner :
          (l : Lock) → owns thread l ≡ true → record (once_more l) { depth = l.depth + 1 - 1 } ≡ l
      same_owner l owned =
          let back : l.depth + 1 - 1 ≡ l.depth = omega arith in
          ap (λ o. record l { owner = o; depth = l.depth + 1 - 1 }) (sym (owner_is l.owner owned))
          ∙ ap (λ d. record l { depth = d }) back

  set-same :
      (n : Text) (lock : Lock) (s t : Locks)
      → SameLocks s t
      → SameLocks (set_lock n lock s) (set_lock n lock t)
  set-same n lock s t same m = elim (Bool-cases (same_bytes n m)) [
    | inl e ↦
        subst (λ k. friend_lock k (set_lock n lock s) ≡ friend_lock k (set_lock n lock t))
          (same_bytes_sound n m e)
          (friend_lock-set_lock n lock s ∙ sym (friend_lock-set_lock n lock t))
    | inr other ↦
        friend_lock-set_other n m lock s other
        ∙ same m
        ∙ sym (friend_lock-set_other n m lock t other)
  ]

  -- Releases, the last acquired lock first, lead back to the locks that were.
  abbrev pub Undo : List Text → Locks → Locks → Type 0
  Undo [] s before = SameLocks s before
  Undo (n ∷ held) s before = (s' : Locks) × (release thread n s ≡ (ok tt, s')) × Undo held s' before

  releasing : Text → Bool → Lock → Locks → Result (Unit {0}) × Locks
  releasing n owned lock s =
      if owned
      then (ok tt, set_lock n (released lock) s)
      else (err (Error.runtime_error "cannot release un-acquired lock"), s)

  pub release-owned :
      (n : Text) (s : Locks)
      → owns thread (friend_lock n s) ≡ true
      → release thread n s ≡ (ok tt, set_lock n (released (friend_lock n s)) s)
  unfolding release
  release-owned n s owned = rw owned

  release-ok :
      (n : Text) (s s' : Locks)
      → release thread n s ≡ (ok tt, s')
      → (owns thread (friend_lock n s) ≡ true) × (s' ≡ set_lock n (released (friend_lock n s)) s)
  unfolding release
  release-ok n s s' h = elim (Bool-cases (owns thread (friend_lock n s))) [
    | inl owned ↦ (owned, ap (λ r. r.1) (sym h ∙ release-owned n s owned))
    | inr other ↦ absurd (failed (sym (rw other) ∙ h))
  ]
    where
      failed :
          ◌≡◌ {A = Result (Unit {0}) × Locks}
            (err (Error.runtime_error "cannot release un-acquired lock"), s)
            (ok tt, s')
          → ⊥
      failed k = cc

  pub Undo-same :
      (held : List Text) (s t before : Locks)
      → SameLocks s t
      → Undo held s before
      → Undo held t before
  Undo-same [] s t before same h = λ m. sym (same m) ∙ h m
  Undo-same (n ∷ held) s t before same (s', gone, rest) =
      let (owned, e) = release-ok n s s' gone in
      let t' = set_lock n (released (friend_lock n t)) t in
      (
        t',
        release-owned n t (sym (ap (owns thread) (same n)) ∙ owned),
        Undo-same held s' t' before
            (λ m.
              ap (friend_lock m) e
              ∙ set-same n (released (friend_lock n s)) s t same m
              ∙ ap (λ l. friend_lock m (set_lock n (released l) t)) (same n))
            rest,
      )

  pub release_all-Undo :
      (held : List Text) (s before : Locks)
      → Undo held s before
      → (s' : Locks) × (release_all thread held s ≡ (ok tt, s')) × SameLocks s' before
  unfolding release_all
  release_all-Undo [] s before h = (s, refl, h)
  release_all-Undo (n ∷ held) s before (s1, gone, rest) =
      let (s', run, same) = release_all-Undo held s1 before rest in
      (s', after (λ done. release_all thread held) gone ∙ run, same)

  pub set-IsSound :
      (n : Text) (lock : Lock) (s : Locks)
      → IsSound lock
      → ((m : Text) → IsSound (friend_lock m s))
      → (m : Text) → IsSound (friend_lock m (set_lock n lock s))
  set-IsSound n lock s one all m = elim (Bool-cases (same_bytes n m)) [
    | inl e ↦
        subst (λ k. IsSound (friend_lock k (set_lock n lock s))) (same_bytes_sound n m e)
          (subst IsSound (sym (friend_lock-set_lock n lock s)) one)
    | inr other ↦ subst IsSound (sym (friend_lock-set_other n m lock s other)) (all m)
  ]

  pub once_more-IsSound : (lock : Lock) → IsSound (once_more lock)
  once_more-IsSound lock = record { unheld = λ h. clash h; counted = λ h. omega arith }

  -- A lock that is owned stays owned when another one is acquired.
  pub set-owned :
      (n m : Text) (lock : Lock) (s : Locks)
      → owns thread (friend_lock m s) ≡ true
      → owns thread (friend_lock m (set_lock n (once_more lock) s)) ≡ true
  set-owned n m lock s owned = elim (Bool-cases (same_bytes n m)) [
    | inl e ↦
        subst (λ k. owns thread (friend_lock k (set_lock n (once_more lock) s)) ≡ true)
          (same_bytes_sound n m e)
          (ap (owns thread) (friend_lock-set_lock n (once_more lock) s) ∙ ==_refl thread)
    | inr other ↦ ap (owns thread) (friend_lock-set_other n m (once_more lock) s other) ∙ owned
  ]

  -- A lock that is acquired and released is as it was.
  pub take-release :
      (n : Text) (g : Locks)
      → IsSound (friend_lock n g)
      → (is_free (friend_lock n g) || owns thread (friend_lock n g)) ≡ true
      → let s1 = set_lock n (once_more (friend_lock n g)) g in
        SameLocks g (set_lock n (released (friend_lock n s1)) s1)
  take-release n g sound can m =
      let lock = friend_lock n g in
      let s1 = set_lock n (once_more lock) g in
      elim (Bool-cases (same_bytes n m)) [
        | inl e ↦
            subst
              (λ k. friend_lock k g ≡ friend_lock k (set_lock n (released (friend_lock n s1)) s1))
              (same_bytes_sound n m e)
              (sym (
                friend_lock-set_lock n (released (friend_lock n s1)) s1
                ∙ ap released (friend_lock-set_lock n (once_more lock) g)
                ∙ released-once_more lock sound can))
        | inr other ↦ sym (
            friend_lock-set_other n m (released (friend_lock n s1)) s1 other
            ∙ friend_lock-set_other n m (once_more lock) g other)
      ]
