-- ===== src/RatchetService/Locks/Orderly.antt =====
-- Every step of the threads keeps the locks orderly, so no thread ever waits for itself.
use ultimate_enigma.Prelude.{
  ℕ, ◌+◌, ◌-◌, ◌≡◌, refl, sym, ap, ◌∙◌, subst, inl, inr, List, Bool, true, false, ◌||◌, Bool-cases,
  ◌==◌, ==_iff, ==_refl, if◌then◌else◌, some, Result, ok, err, Error, arith,
}
use ultimate_enigma.Bytes.{same_bytes, same_bytes_refl}
use ultimate_enigma.Utf8.{Text}
use ultimate_enigma.RatchetService.Locks.{
  Locks, free, owns, is_free, friend_lock, get_friend_lock, set_lock, acquire, release, released,
}
use ultimate_enigma.RatchetService.Locks.View.{friend_lock-get_friend_lock, acquire_cases}
use ultimate_enigma.RatchetService.Locks.Waiting.{
  Acquirer, System, update, name_at, Step, take_lock, drop_lock, call, Reach, here, next, Holds,
  IsOrderly, Chain, not-Chain,
}
use ultimate_enigma.RatchetService.Locks.Kept.{
  no_clash, some_injective, taken, Holds-update, depth_before, set-IsOrderly,
}

module _ (lower : Text → Text) where
  module _ (s : System) (o : IsOrderly lower s) where
    take-IsOrderly :
        (now t : ℕ) (n : Text) (locks' : Locks)
        → name_at lower (s.threads t) (s.threads t).done ≡ some n
        → acquire t n (get_friend_lock now n s.locks) ≡ (true, locks')
        → IsOrderly lower (record {
          threads =
              update t
                (record { names = (s.threads t).names; done = (s.threads t).done + 1 })
                s.threads;
          locks = locks';
        })
    take-IsOrderly now t n locks' wanted acquired = elim (acquire_cases t n g) [
      | inr e ↦ no_clash (ap (λ r. r.0) (sym e ∙ acquired))
      | inl (can, e) ↦
          subst (λ l. IsOrderly lower (record { threads = update t a s.threads; locks = l }))
            (ap (λ r. r.1) (sym e ∙ acquired))
            (set-IsOrderly lower s o t n a (taken t (friend_lock n g)) g view (mine can)
              (λ idle. no_clash idle) (λ m other h. (h.0, omega (arith, h.1), h.2)))
    ]
      where
        g : Locks
        g = get_friend_lock now n s.locks

        a : Acquirer
        a = record { names = (s.threads t).names; done = (s.threads t).done + 1 }

        view : (m : Text) → friend_lock m g ≡ friend_lock m s.locks
        view m = friend_lock-get_friend_lock now n m s.locks

        mine :
            (is_free (friend_lock n g) || owns t (friend_lock n g)) ≡ true
            → (u : ℕ) → owns u (taken t (friend_lock n g)) ≡ true
            → Holds lower (update t a s.threads u) n × ((friend_lock n g).depth + 1 ≡ 1)
        mine can u owned =
            let before =
              depth_before lower s o t n wanted
                (sym (ap (λ l. is_free l || owns t l) (view n)) ∙ can) in
            (
              subst (λ k. Holds lower (update t a s.threads k) n) ((==_iff t u).0 owned)
                  (subst (λ b. Holds lower (if b then a else s.threads t) n) (sym (==_refl t))
                    ((s.threads t).done, omega arith, wanted)),
              omega (arith, ap (λ l. l.depth) (view n), before),
            )

    drop-IsOrderly :
        (t k : ℕ) (n : Text) (locks' : Locks)
        → (s.threads t).done ≡ k + 1
        → name_at lower (s.threads t) k ≡ some n
        → release t n s.locks ≡ (ok tt, locks')
        → IsOrderly lower (record {
          threads = update t (record { names = (s.threads t).names; done = k }) s.threads;
          locks = locks';
        })
    unfolding release
    drop-IsOrderly t k n locks' done place gone =
        elim (Bool-cases (owns t (friend_lock n s.locks))) [
          | inr other ↦ absurd (failed (sym (outcome other) ∙ gone))
          | inl owned ↦
              let (h, once) = o.held t n owned in
              let freed : released (friend_lock n s.locks) ≡ free =
                ap
                  (λ d. if d == 1 then free else record (friend_lock n s.locks) {
                    depth = (friend_lock n s.locks).depth - 1;
                  })
                  once in
              subst (λ l. IsOrderly lower (record { threads = update t a s.threads; locks = l }))
                (sym (ap (λ l. set_lock n l s.locks) freed)
                  ∙ ap (λ r. r.1) (sym (outcome owned) ∙ gone))
                (set-IsOrderly lower s o t n a free s.locks (λ m. refl) (λ u clash. no_clash clash)
                  (λ idle. refl) kept)
        ]
      where
        a : Acquirer
        a = record { names = (s.threads t).names; done = k }

        outcome :
            {b : Bool}
            → owns t (friend_lock n s.locks) ≡ b
            → release t n s.locks ≡ (
                if b
                then (ok tt, set_lock n (released (friend_lock n s.locks)) s.locks)
                else (err (Error.runtime_error "cannot release un-acquired lock"), s.locks))
        outcome e =
            ap
              (λ b.
                if b
                then (ok tt, set_lock n (released (friend_lock n s.locks)) s.locks)
                else (err (Error.runtime_error "cannot release un-acquired lock"), s.locks))
              e

        failed :
            {e : Error} → ◌≡◌ {A = Result (Unit {0}) × Locks} (err e, s.locks) (ok tt, locks') → ⊥
        failed e = cc

        kept : (m : Text) → same_bytes n m ≡ false → Holds lower (s.threads t) m → Holds lower a m
        kept m other (i, below, at) = elim (Bool-cases (i == k)) [
          | inr before ↦ (i, ground arith, at)
          | inl last ↦
              let same : n ≡ m =
                some_injective
                  (sym place ∙ ap (name_at lower (s.threads t)) (sym ((==_iff i k).0 last)) ∙ at) in
              no_clash (sym other ∙ ap (same_bytes n) (sym same) ∙ same_bytes_refl n)
        ]

    call-IsOrderly :
        (t : ℕ) (names : List Text)
        → (s.threads t).done ≡ 0
        → IsOrderly lower (record {
          threads = update t (record { names = names; done = 0 }) s.threads;
          locks = s.locks;
        })
    call-IsOrderly t names none_held = record {
      held = λ u m owned.
          let (h, once) = o.held u m owned in
          (
            Holds-update lower s o t u m (record { names = names; done = 0 })
                (λ own. absurd (omega (arith, own.1))) h,
            once,
          );
      idle = o.idle;
    }

  with_parts :
      (s : System) (threads : ℕ → Acquirer) (locks : Locks)
      → s.threads ≡ threads
      → s.locks ≡ locks
      → IsOrderly lower (record { threads = threads; locks = locks })
      → IsOrderly lower s
  with_parts s threads locks same_threads same_locks o =
      subst (λ th. IsOrderly lower (record { threads = th; locks = s.locks })) (sym same_threads)
        (subst (λ l. IsOrderly lower (record { threads = threads; locks = l })) (sym same_locks) o)

  Step-IsOrderly : (s s' : System) → Step lower s s' → IsOrderly lower s → IsOrderly lower s'
  Step-IsOrderly s s' (take_lock now t n wanted acquired threads') o =
      with_parts s' _ s'.locks threads' refl (take-IsOrderly s o now t n s'.locks wanted acquired)
  Step-IsOrderly s s' (drop_lock t k n done place gone threads') o =
      with_parts s' _ s'.locks threads' refl (drop-IsOrderly s o t k n s'.locks done place gone)
  Step-IsOrderly s s' (call t names none_held locks' threads') o =
      with_parts s' _ s.locks threads' locks' (call-IsOrderly s o t names none_held)

  Reach-IsOrderly : {s s' : System} → Reach lower s s' → IsOrderly lower s → IsOrderly lower s'
  Reach-IsOrderly here o = o
  Reach-IsOrderly (next reach step) o = Step-IsOrderly _ _ step (Reach-IsOrderly reach o)

  -- From a state in which no thread owns a lock that it did not acquire, threads that acquire in the
  -- order of acquire_friend_locks_ordered, and release or call again in any interleaving, never come
  -- to wait for one another in a circle.
  pub Reach-not-Chain :
      (s s' : System) (t : ℕ) → IsOrderly lower s → Reach lower s s' → ¬ Chain lower s' t t
  Reach-not-Chain s s' t o reach = not-Chain lower s' t (Reach-IsOrderly reach o)
