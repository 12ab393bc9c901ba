-- ===== src/RatchetService/Locks/Waiting.antt =====
-- Threads that acquire the locks of several friends at a time, in any interleaving, never wait for
-- one another in a circle.
use ultimate_enigma.Prelude.{
  ℕ, ◌+◌, ◌<◌, ◌≡◌, refl, sym, ◌∙◌, subst, ◌⊎◌, inl, inr, List, true, false, ◌==◌, if◌then◌else◌,
  get_elem?, Option, some, ok,
}
use ultimate_enigma.Utf8.{Text}
use ultimate_enigma.RatchetService.Locks.{
  Locks, owns, is_free, friend_lock, get_friend_lock, acquire, release, unique_names, name_lt,
}
use ultimate_enigma.RatchetService.Locks.Order.{
  name_lt_irrefl, name_lt_trans, unique_names-IsSorted, IsSorted-lt,
}

-- A thread in `acquire_friend_locks_ordered`: the names that it was given, and how many of the locks
-- it has acquired.
pub record Acquirer : Type 0 where
  pub names : List Text
  pub done : ℕ

pub record System : Type 0 where
  pub threads : ℕ → Acquirer
  pub locks : Locks

abbrev pub update : ℕ → Acquirer → (ℕ → Acquirer) → ℕ → Acquirer
update t a threads u = if u == t then a else threads u

module _ (lower : Text → Text) where
  abbrev pub name_at : Acquirer → ℕ → Option Text
  name_at a i = get_elem? (unique_names lower a.names) i

  -- A round of the loop in one thread, the release of the lock that it acquired last, or a new call
  -- of a thread that holds none.
  pub data Step (s : System) (s' : System) : Type 0 where
    take_lock :
        (now t : ℕ) (n : Text)
        → name_at (s.threads t) (s.threads t).done ≡ some n
        → acquire t n (get_friend_lock now n s.locks) ≡ (true, s'.locks)
        → s'.threads
          ≡ update t
              (record { names = (s.threads t).names; done = (s.threads t).done + 1 })
              s.threads
        → Step s s'
    drop_lock :
        (t k : ℕ) (n : Text)
        → (s.threads t).done ≡ k + 1
        → name_at (s.threads t) k ≡ some n
        → release t n s.locks ≡ (ok tt, s'.locks)
        → s'.threads ≡ update t (record { names = (s.threads t).names; done = k }) s.threads
        → Step s s'
    call :
        (t : ℕ) (names : List Text)
        → (s.threads t).done ≡ 0
        → s'.locks ≡ s.locks
        → s'.threads ≡ update t (record { names = names; done = 0 }) s.threads
        → Step s s'

  pub data Reach (s : System) : System → Type 0 where
    here : Reach s s
    next : {s' s'' : System} → Reach s s' → Step s' s'' → Reach s s''

  -- The lock is one of those that the thread has acquired.
  abbrev pub Holds : Acquirer → Text → Type 0
  Holds a n = (i : ℕ) × (i < a.done) × (name_at a i ≡ some n)

  -- Only a thread that acquired a lock owns it, and it owns it once.
  pub record IsOrderly (s : System) : Type 0 where
    pub held :
        (t : ℕ) (n : Text)
        → owns t (friend_lock n s.locks) ≡ true
        → Holds (s.threads t) n × ((friend_lock n s.locks).depth ≡ 1)
    pub idle :
        (n : Text) → is_free (friend_lock n s.locks) ≡ true → (friend_lock n s.locks).depth ≡ 0

  -- The thread waits for a lock that the other thread owns.
  abbrev pub WaitsFor : System → ℕ → ℕ → Type 0
  WaitsFor s t u =
      (n : Text) × (name_at (s.threads t) (s.threads t).done ≡ some n)
      × (owns u (friend_lock n s.locks) ≡ true)

  pub data Chain (s : System) (t : ℕ) : ℕ → Type 0 where
    one : {u : ℕ} → WaitsFor s t u → Chain s t u
    more : {u v : ℕ} → Chain s t u → WaitsFor s u v → Chain s t v

  -- Along a chain the name that is waited for grows.
  Chain-lt :
      (s : System) (t : ℕ) {u : ℕ}
      → IsOrderly s
      → Chain s t u
      → (n m : Text) × (name_at (s.threads t) (s.threads t).done ≡ some n)
        × Holds (s.threads u) m
        × ((n ≡ m) ⊎ (name_lt lower n m ≡ true))
  Chain-lt s t o (one (n, wanted, owned)) = (n, n, wanted, (o.held _ n owned).0, inl refl)
  Chain-lt s t o (more {u} chain (m', wanted', owned)) =
      let (n, m, wanted, (i, below, place), order) = Chain-lt s t o chain in
      let step : name_lt lower m m' ≡ true =
        IsSorted-lt lower (unique_names lower (s.threads u).names) i (s.threads u).done m m'
          (unique_names-IsSorted lower (s.threads u).names) below place wanted' in
      (
        n,
        m',
        wanted,
        (o.held _ m' owned).0,
        inr (elim order [
          | inl e ↦ subst (λ k. name_lt lower k m' ≡ true) (sym e) step
          | inr less ↦ name_lt_trans lower n m m' less step
        ]),
      )

  pub not-Chain : (s : System) (t : ℕ) → IsOrderly s → ¬ Chain s t t
  not-Chain s t o chain =
      let (n, m, wanted, (i, below, place), order) = Chain-lt s t o chain in
      let back : name_lt lower m n ≡ true =
        IsSorted-lt lower (unique_names lower (s.threads t).names) i (s.threads t).done m n
          (unique_names-IsSorted lower (s.threads t).names) below place wanted in
      let circle : name_lt lower m m ≡ true = elim order [
        | inl e ↦ subst (λ k. name_lt lower m k ≡ true) e back
        | inr less ↦ name_lt_trans lower m n m back less
      ] in
      absurd (let no : false ≡ true = sym (name_lt_irrefl lower m) ∙ circle in cc)
