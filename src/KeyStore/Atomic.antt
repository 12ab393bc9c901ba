-- ===== src/KeyStore/Atomic.antt =====
-- A change of the password in key_manager.py that fails leaves the database and the keys in memory
-- as they were.
use ultimate_enigma.Prelude.{
  ◌≡◌, refl, ap, ◌∙◌, sym, subst, Bool-cases, inl, inr, Bool, true, false, some, Result, ok, err,
  Error, require,
}
use ultimate_enigma.Action.{◌>>◌, continue, after, after_lift}
use ultimate_enigma.Bytes.{Bytes}
use ultimate_enigma.KeyStore.{Packages, Rows, Memory, KeyStoreState}
use ultimate_enigma.KeyStore.Friends.{Secret, commit, update_memory}
use ultimate_enigma.KeyStore.Keeps.{prepare-Keeps}
use ultimate_enigma.KeyStore.Change.{
  Prepared, prepare, conn_commit, finish, handled, raised, is_rolled_back, change_password,
}

abbrev durable : KeyStoreState → Rows × Memory
durable s = (s.committed, s.memory)

-- Where it raised, the database and the keys are these.
abbrev Undone {ℓ} : {A : Type ℓ} → Rows × Memory → Result A × KeyStoreState → Type 0
Undone before (err e, s) = durable s ≡ before
Undone before (ok value, s) = Unit

handled-Undone :
    (before : Rows × Memory) (outcome : Result Bool × KeyStoreState)
    → Undone before outcome
    → Undone before (handled outcome)
handled-Undone before (ok value, s) h = tt
handled-Undone before (err e, s) h = closed (is_rolled_back e)
  where
    closed : (b : Bool) → Undone before (raised b e s)
    closed true = h
    closed false = h

-- The keys in memory after a change.
abbrev pub renewed : Prepared → Memory → Memory
renewed p memory = record memory {
  global_secret = some p.gs_plain;
  my_priv = some p.priv_key;
  friends = update_memory p.friend_updates memory.friends;
}

module _ (K : Packages) (draws : Secret → Bytes × Bytes) (accepts : Secret → Bool) where
  pub conn_commit-taken :
      (s : KeyStoreState)
      → accepts commit ≡ true
      → conn_commit K draws accepts s ≡ (ok tt, record s { committed = s.pending })
  unfolding conn_commit
  conn_commit-taken s taken = after_lift _ (ap (λ b. require b Error.database_error) taken)

  conn_commit-refused :
      (s : KeyStoreState)
      → accepts commit ≡ false
      → conn_commit K draws accepts s ≡ (err Error.database_error, s)
  unfolding conn_commit
  conn_commit-refused s refused =
      ap
        (λ b.
          continue (require b Error.database_error, s)
            (λ done t. (ok tt, record t { committed = t.pending })))
        refused

  -- Buffers of guarded memory can be had.
  module _ (guarded : (plain : Bytes) → K.guard plain ≡ ok tt) where
    pub finish_lem :
        (p : Prepared) (s : KeyStoreState)
        → finish K draws accepts p s ≡ (ok true, record s { memory = renewed p s.memory })
    unfolding finish
    finish_lem p s = after_lift _ (guarded p.gs_plain)

    commit-Undone :
        (p : Prepared) (s : KeyStoreState)
        → Undone (durable s) ((conn_commit K draws accepts >> finish K draws accepts p) s)
    commit-Undone p s = elim (Bool-cases (accepts commit)) [
      | inl taken ↦
          subst (Undone (durable s))
            (sym (
              after (λ done. finish K draws accepts p) (conn_commit-taken s taken)
              ∙ finish_lem p (record s { committed = s.pending })))
            tt
      | inr refused ↦
          subst (Undone (durable s))
            (sym (
              ap (λ o. continue o (λ done. finish K draws accepts p))
                (conn_commit-refused s refused)))
            refl
    ]

    -- A change of the password that raises an exception, whatever statement or package failed,
    -- leaves the rows of the database and the keys in memory as they were, if the buffers for the
    -- keys can be allocated.
    pub change_password-atomic :
        (old_password new_password : Bytes) (s s' : KeyStoreState) (e : Error)
        → change_password K draws accepts old_password new_password s ≡ (err e, s')
        → (s'.committed ≡ s.committed) × (s'.memory ≡ s.memory)
    unfolding change_password
    change_password-atomic old_password new_password s s' e h =
        let before = durable s in
        let undone : Undone before (change_password K draws accepts old_password new_password s) =
          handled-Undone before _ (
            split (prepare K draws accepts old_password new_password s)
              (ap (λ v. v.0) ((prepare-Keeps K draws accepts old_password new_password).kept s))) in
        let same : durable s' ≡ before = subst (Undone before) h undone in
        (ap (λ v. v.0) same, ap (λ v. v.1) same)
      where
        split :
            (outcome : Result Prepared × KeyStoreState)
            → durable outcome.1 ≡ durable s
            → Undone
                (durable s)
                (continue outcome (λ p. conn_commit K draws accepts >> finish K draws accepts p))
        split (err e, t) same = same
        split (ok p, t) same =
            subst (λ v. Undone v ((conn_commit K draws accepts >> finish K draws accepts p) t)) same
              (commit-Undone p t)
