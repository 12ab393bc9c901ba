-- ===== src/RatchetService/Locks/Cleanup.antt =====
-- services/ratchet_service.py: `cleanup_friend_locks`, called by `thread` at the time `now`.
use ultimate_enigma.Prelude.{
  ℕ, ◌+◌, ◌-◌, ◌≡◌, ◌≢◌, refl, sym, ap, ◌∙◌, subst, inl, inr, List, [], ◌∷◌, Bool, true, false,
  ◌||◌, Bool-cases, ltb, ◌==◌, ==_iff, if◌then◌else◌, Option, none, some,
}
use ultimate_enigma.Bytes.{same_bytes, same_bytes_sound}
use ultimate_enigma.Utf8.{Text}
use ultimate_enigma.Dict.{lookup, remove, lookup-remove_other}
use ultimate_enigma.RatchetService.{friend_names}
use ultimate_enigma.RatchetService.Locks.{
  Lock, Locks, owns, is_free, lock_or_free, friend_lock, acquire, release,
}
use ultimate_enigma.RatchetService.Locks.View.{friend_lock-set_other, acquire_cases}
use ultimate_enigma.RatchetService.Locks.Kept.{no_clash}

abbrev pub lock_max_age : ℕ
lock_max_age = 7200

abbrev pub contains : Text → List Text → Bool
contains name [] = false
contains name (n ∷ names) = same_bytes n name || contains name names

unfoldable pub not_active : List Text → List (Text × Lock) → List Text
not_active active [] = []
not_active active ((name, lock) ∷ locks) =
    let rest = not_active active locks in if contains name active then rest else name ∷ rest

unfoldable pub too_old : ℕ → List (Text × ℕ) → List Text
too_old now [] = []
too_old now ((name, created_at) ∷ stamps) =
    let rest = too_old now stamps in
    if ltb lock_max_age (now - created_at) then name ∷ rest else rest

unfoldable pub stale_names : ℕ → Option (List Text) → Locks → List Text
stale_names now none s = too_old now s.timestamps
stale_names now (some active) s = not_active active s.friend_locks

-- `del` of the lock, and of its timestamp if it is there.
unfoldable pub delete_lock : Text → Locks → Locks
unfolding friend_names
delete_lock name s = record {
  friend_locks = remove friend_names name s.friend_locks;
  timestamps = remove friend_names name s.timestamps;
}

-- A lock that is acquired at once is released again and deleted.
unfoldable pub remove_lock : ℕ → Text → Locks → Bool × Locks
remove_lock thread name s =
    let (acquired, s1) = acquire thread name s in
    let (done, s2) = release thread name s1 in
    if acquired then (true, delete_lock name s2) else (false, s1)

abbrev pub is_known : Option Lock → Bool
is_known none = false
is_known (some lock) = true

unfoldable pub remove_stale : ℕ → List Text → ℕ → Locks → ℕ × Locks
unfolding friend_names
remove_stale thread [] removed s = (removed, s)
remove_stale thread (name ∷ names) removed s =
    let (deleted, s') = remove_lock thread name s in
    let skip = remove_stale thread names removed s in
    let next = remove_stale thread names (removed + (if deleted then 1 else 0)) s' in
    if is_known (lookup friend_names name s.friend_locks) then next else skip

unfoldable pub cleanup_friend_locks : ℕ → ℕ → Option (List Text) → Locks → ℕ × Locks
cleanup_friend_locks now thread active_friends s =
    remove_stale thread (stale_names now active_friends s) 0 s

friend_lock-delete_other :
    (n m : Text) (s : Locks)
    → same_bytes n m ≡ false
    → friend_lock m (delete_lock n s) ≡ friend_lock m s
unfolding friend_lock delete_lock friend_names
friend_lock-delete_other n m s other =
    ap lock_or_free (lookup-remove_other friend_names m n s.friend_locks other)

module _ (thread u : ℕ) (other : u ≢ thread) (m : Text) where
  release-keeps :
      (n : Text) (s : Locks)
      → same_bytes n m ≡ false
      → friend_lock m (release thread n s).1 ≡ friend_lock m s
  unfolding release
  release-keeps n s apart = elim (Bool-cases (owns thread (friend_lock n s))) [
    | inl owned ↦ rw owned (friend_lock-set_other n m _ s apart)
    | inr free ↦ rw free
  ]

  -- A lock that another thread holds is neither free nor the caller's.
  not_acquired : (lock : Lock) → owns u lock ≡ true → (is_free lock || owns thread lock) ≡ true → ⊥
  not_acquired lock owned can = at lock.owner owned can
    where
      at :
          (o : Option ℕ)
          → elim o as (λ x. Bool) [ none ↦ false | some t ↦ t == u ] ≡ true
          → (elim o as (λ x. Bool) [ none ↦ true | some t ↦ false ]
              || elim o as (λ x. Bool) [ none ↦ false | some t ↦ t == thread ])
            ≡ true
          → ⊥
      at none h k = no_clash h
      at (some t) h k = other (sym ((==_iff t u).0 h) ∙ (==_iff t thread).0 k)

  remove_lock-keeps :
      (n : Text) (s : Locks)
      → owns u (friend_lock m s) ≡ true
      → friend_lock m (remove_lock thread n s).1 ≡ friend_lock m s
  unfolding remove_lock
  remove_lock-keeps n s owned = elim (acquire_cases thread n s) [
    | inr e ↦ rw e
    | inl (can, e) ↦ elim (Bool-cases (same_bytes n m)) [
      | inl same ↦
          let held : owns u (friend_lock n s) ≡ true =
            subst (λ k. owns u (friend_lock k s) ≡ true) (sym (same_bytes_sound n m same)) owned in
          absurd (not_acquired (friend_lock n s) held can)
      | inr apart ↦ rw e (
          friend_lock-delete_other n m _ apart
          ∙ release-keeps n _ apart
          ∙ friend_lock-set_other n m _ s apart)
    ]
  ]

  remove_stale-keeps :
      (names : List Text) (removed : ℕ) (s : Locks)
      → owns u (friend_lock m s) ≡ true
      → friend_lock m (remove_stale thread names removed s).1 ≡ friend_lock m s
  unfolding remove_stale
  remove_stale-keeps [] removed s owned = refl
  remove_stale-keeps (n ∷ names) removed s owned =
      let s' = (remove_lock thread n s).1 in
      let same = remove_lock-keeps n s owned in
      elim (Bool-cases (is_known (lookup friend_names n s.friend_locks))) [
        | inr unknown ↦ rw unknown (remove_stale-keeps names removed s owned)
        | inl known ↦ rw known (remove_stale-keeps names _ s' (ap (owns u) same ∙ owned) ∙ same)
      ]

  -- A cleanup leaves a lock that another thread holds as it is, whatever names are stale.
  pub cleanup_friend_locks-keeps :
      (now : ℕ) (active_friends : Option (List Text)) (s : Locks)
      → owns u (friend_lock m s) ≡ true
      → friend_lock m (cleanup_friend_locks now thread active_friends s).1 ≡ friend_lock m s
  unfolding cleanup_friend_locks
  cleanup_friend_locks-keeps now active_friends s owned =
      remove_stale-keeps (stale_names now active_friends s) 0 s owned
