-- ===== src/RatchetService/Locks/Batch.antt =====
-- `acquire_friend_locks_ordered` acquires every lock or leaves each as it was.
use ultimate_enigma.Prelude.{
  ℕ, ◌≡◌, refl, sym, ap, ◌∙◌, subst, ◌⊎◌, inl, inr, List, [], ◌∷◌, Bool, true, false, ==_refl,
  Result, ok, err, Error, All,
}
use ultimate_enigma.Action.{Action, continue, lift, give, after, ◌>>◌}
use ultimate_enigma.Utf8.{Text}
use ultimate_enigma.RatchetService.Locks.{
  Locks, owns, friend_lock, get_friend_lock, set_lock, released, unique_names, release_all,
  acquire_loop, acquire_friend_locks_ordered,
}
use ultimate_enigma.RatchetService.Locks.View.{
  friend_lock-set_lock, friend_lock-get_friend_lock, acquire_cases,
}
use ultimate_enigma.RatchetService.Locks.Undo.{
  IsSound, SameLocks, once_more, Undo, release-owned, Undo-same, release_all-Undo, set-IsSound,
  once_more-IsSound, set-owned, take-release,
}

module _ (thread : ℕ) where
  -- What the loop comes to.
  Acquired : List Text → Locks → Locks → Type 0
  Acquired names s s' =
      All (λ n. owns thread (friend_lock n s') ≡ true) names
      × ((m : Text) → owns thread (friend_lock m s) ≡ true → owns thread (friend_lock m s') ≡ true)

  acquire_loop_cases :
      (now : ℕ) (names held : List Text) (s before : Locks)
      → ((m : Text) → IsSound (friend_lock m s))
      → Undo thread held s before
      → (s' : Locks) × (((acquire_loop now thread names held s ≡ (ok tt, s')) × Acquired names s s')
          ⊎ ((acquire_loop now thread names held s ≡ (err Error.concurrency_error, s'))
              × SameLocks s' before))
  unfolding acquire_loop Acquired
  acquire_loop_cases now [] held s before sound undo = (s, inl (refl, (tt, λ m h. h)))
  acquire_loop_cases now (n ∷ names) held s before sound undo = elim (acquire_cases thread n g) [
    | inr e ↦
        let (s', run, same) =
          release_all-Undo thread held g before
            (Undo-same thread held s g before (λ m. sym (view m)) undo) in
        (s', inr (ap turn e ∙ after (λ done. lift (err Error.concurrency_error)) run, same))
    | inl (can, e) ↦
        let lock = friend_lock n g in
        let s1 = set_lock n (once_more thread lock) g in
        let sound_g : (m : Text) → IsSound (friend_lock m g) =
          λ m. subst IsSound (sym (view m)) (sound m) in
        let at_n = friend_lock-set_lock n (once_more thread lock) g in
        let gone = release-owned thread n s1 (ap (owns thread) at_n ∙ ==_refl thread) in
        let back : SameLocks s (set_lock n (released (friend_lock n s1)) s1) =
          λ m. sym (view m) ∙ take-release thread n g (sound_g n) can m in
        let (s', outcome) =
          acquire_loop_cases now names (n ∷ held) s1 before
            (set-IsSound thread n (once_more thread lock) g (once_more-IsSound thread lock) sound_g)
            (
              set_lock n (released (friend_lock n s1)) s1,
              gone,
              Undo-same thread held s (set_lock n (released (friend_lock n s1)) s1) before back
                  undo,
            ) in
        (
          s',
          elim outcome [
            | inl (run, (all, kept)) ↦ inl (
              ap turn e ∙ run,
              (
                (kept n (ap (owns thread) at_n ∙ ==_refl thread), all),
                λ m owned. kept m (set-owned thread n m lock g (ap (owns thread) (view m) ∙ owned)),
              ),
            )
            | inr (run, same) ↦ inr (ap turn e ∙ run, same)
          ],
        )
  ]
    where
      g : Locks
      g = get_friend_lock now n s

      view : SameLocks g s
      view m = friend_lock-get_friend_lock now n m s

      turn : Bool × Locks → Result (Unit {0}) × Locks
      turn outcome =
          let (success, s') = outcome in
          let next = acquire_loop now thread names (n ∷ held) s' in
          let undo' = (release_all thread held >> lift (err Error.concurrency_error)) s' in
          elim success [ true ↦ next | false ↦ undo' ]

  -- Over locks that are held or free, the call returns the names in their fixed order, and the
  -- thread owns every one of their locks, or it raises ConcurrencyError and every lock is as it was.
  pub acquire_friend_locks_ordered_cases :
      (lower : Text → Text) (now : ℕ) (names : List Text) (s : Locks)
      → ((m : Text) → IsSound (friend_lock m s))
      → (s' : Locks) × (((acquire_friend_locks_ordered lower now thread names s
              ≡ (ok (unique_names lower names), s'))
            × All (λ n. owns thread (friend_lock n s') ≡ true) (unique_names lower names))
          ⊎ ((acquire_friend_locks_ordered lower now thread names s
                ≡ (err Error.concurrency_error, s'))
              × SameLocks s' s))
  unfolding acquire_friend_locks_ordered Acquired
  acquire_friend_locks_ordered_cases lower now names s sound =
      let sorted = unique_names lower names in
      let finish : Unit {0} → Action Locks (List Text) = λ done. give sorted in
      let (s', outcome) = acquire_loop_cases now sorted [] s s sound (λ m. refl) in
      (
        s',
        elim outcome [
          | inl (run, (all, kept)) ↦ inl (after finish run, all)
          | inr (run, same) ↦ inr (ap (λ o. continue o finish) run, same)
        ],
      )
