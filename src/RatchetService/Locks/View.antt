-- ===== src/RatchetService/Locks/View.antt =====
-- The lock of each friend after a lock is made, acquired or released.
use ultimate_enigma.Prelude.{
  ℕ, ◌+◌, ◌≡◌, ◌⊎◌, sym, ap, ◌∙◌, true, false, ◌||◌, Bool-cases, inl, inr, ◌≢◌, Option-cases, some,
}
use ultimate_enigma.Bytes.{same_bytes, same_bytes_refl, same_bytes_sound}
use ultimate_enigma.Utf8.{Text}
use ultimate_enigma.Dict.{lookup, insert, lookup-insert, lookup-insert_other}
use ultimate_enigma.RatchetService.{friend_names}
use ultimate_enigma.RatchetService.Locks.{
  Lock, Locks, free, owns, is_free, lock_or_free, friend_lock, get_friend_lock, set_lock, acquire,
}

different : (n m : Text) → same_bytes n m ≡ false → n ≢ m
different n m h e = apart (sym h ∙ ap (same_bytes n) (sym e) ∙ same_bytes_refl n)
  where
    apart : false ≡ true → ⊥
    apart k = cc

pub friend_lock-set_lock :
    (n : Text) (lock : Lock) (s : Locks) → friend_lock n (set_lock n lock s) ≡ lock
unfolding friend_lock set_lock
friend_lock-set_lock n lock s = ap lock_or_free (lookup-insert friend_names n lock s.friend_locks)

pub friend_lock-set_other :
    (n m : Text) (lock : Lock) (s : Locks)
    → same_bytes n m ≡ false
    → friend_lock m (set_lock n lock s) ≡ friend_lock m s
unfolding friend_lock set_lock
friend_lock-set_other n m lock s h =
    ap lock_or_free (lookup-insert_other friend_names m n lock s.friend_locks (different n m h))

-- A lock that is made is free, as it was.
pub friend_lock-get_friend_lock :
    (now : ℕ) (n m : Text) (s : Locks) → friend_lock m (get_friend_lock now n s) ≡ friend_lock m s
unfolding friend_lock get_friend_lock
friend_lock-get_friend_lock now n m s = elim (Option-cases (lookup friend_names n s.friend_locks)) [
  | inr (lock, e) ↦ rw (e, get_friend_lock)
  | inl e ↦
      let made : get_friend_lock now n s ≡ record s {
        friend_locks = insert friend_names n free s.friend_locks;
        timestamps = insert friend_names n now s.timestamps;
      } =
        rw (e, get_friend_lock) in
      ap (friend_lock m) made ∙ elim (Bool-cases (same_bytes n m)) [
        | inl same ↦
            ap lock_or_free (
              ap (λ k. lookup friend_names k (insert friend_names n free s.friend_locks))
                (sym (same_bytes_sound n m same))
              ∙ lookup-insert friend_names n free s.friend_locks)
            ∙ sym (
                ap lock_or_free (
                  ap (λ k. lookup friend_names k s.friend_locks) (sym (same_bytes_sound n m same))
                  ∙ e))
        | inr other ↦
            ap lock_or_free
              (lookup-insert_other friend_names m n free s.friend_locks (different n m other))
      ]
]

pub acquire_cases :
    (thread : ℕ) (n : Text) (s : Locks)
    → (((is_free (friend_lock n s) || owns thread (friend_lock n s)) ≡ true)
        × (acquire thread n s ≡ (
          true,
          set_lock n (record { owner = some thread; depth = (friend_lock n s).depth + 1 }) s,
        )))
      ⊎ (acquire thread n s ≡ (false, s))
unfolding acquire
acquire_cases thread n s =
    elim (Bool-cases (is_free (friend_lock n s) || owns thread (friend_lock n s))) [
      | inl e ↦ inl (e, rw e)
      | inr e ↦ inr (rw e)
    ]
