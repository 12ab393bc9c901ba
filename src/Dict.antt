-- ===== src/Dict.antt =====
-- Python's dictionaries as lists of entries in the order of insertion, and lists of keys.
use ultimate_enigma.Prelude.{
  ◌≡◌, ◌≢◌, refl, sym, ap, ◌∙◌, Bool, true, false, Bool-cases, inl, inr, List, [], ◌∷◌, length, suc,
  ◌≤◌, arith, Option, none, some, All,
}

-- An equality test.
pub record Equality {ℓ} (K : Type ℓ) : Type ℓ where
  pub same : K → K → Bool
  pub same_sound : (a b : K) → same a b ≡ true → a ≡ b
  pub same_refl : (a : K) → same a a ≡ true

module _ {ℓ κ} {K : Type ℓ} {V : Type κ} (E : Equality K) where
  open E use {same, same_sound, same_refl}

  abbrev pub lookup : K → List (K × V) → Option V
  lookup k [] = none
  lookup k ((j, v) ∷ entries) = elim (same j k) [ true ↦ some v | false ↦ lookup k entries ]

  -- `d[k] = v`, which keeps the place of a key that is there.
  abbrev pub insert : K → V → List (K × V) → List (K × V)
  insert k v [] = (k, v) ∷ []
  insert k v ((j, w) ∷ entries) =
      let rest = insert k v entries in
      elim (same j k) [ true ↦ (j, v) ∷ entries | false ↦ (j, w) ∷ rest ]

  -- `d.pop(k, None)`, without the value; a key has one entry at most.
  abbrev pub remove : K → List (K × V) → List (K × V)
  remove k [] = []
  remove k ((j, w) ∷ entries) =
      let rest = remove k entries in elim (same j k) [ true ↦ rest | false ↦ (j, w) ∷ rest ]

  pub lookup-insert :
      (k : K) (v : V) (entries : List (K × V)) → lookup k (insert k v entries) ≡ some v
  lookup-insert k v [] = rw (same_refl k)
  lookup-insert k v ((j, w) ∷ entries) = elim (Bool-cases (same j k)) [
    | inl hit ↦
        let placed : insert k v ((j, w) ∷ entries) ≡ (j, v) ∷ entries = rw (hit, insert) in
        ap (lookup k) placed ∙ rw (hit, lookup)
    | inr miss ↦
        let placed : insert k v ((j, w) ∷ entries) ≡ (j, w) ∷ insert k v entries =
          rw (miss, insert) in
        ap (lookup k) placed ∙ rw (miss, lookup) (lookup-insert k v entries)
  ]

  pub remove_absent :
      (k : K) (entries : List (K × V)) → lookup k entries ≡ none → remove k entries ≡ entries
  remove_absent k [] h = refl
  remove_absent k ((j, w) ∷ entries) h = elim (Bool-cases (same j k)) [
    | inl hit ↦ absurd (found (rw (hit, lookup) at h))
    | inr miss ↦
        rw (miss, remove) (ap (◌∷◌ (j, w)) (remove_absent k entries (rw (miss, lookup) at h)))
  ]
    where
      found : some w ≡ none → ⊥
      found e = cc

  module _ (P : K → Type 0) where
    abbrev pub Keys : List (K × V) → Type 0
    Keys = All (λ e. P e.0)

    pub insert-Keys :
        (k : K) (v : V) (entries : List (K × V)) → P k → Keys entries → Keys (insert k v entries)
    insert-Keys k v [] p h = (p, tt)
    insert-Keys k v ((j, w) ∷ entries) p h = elim (Bool-cases (same j k)) [
      | inl hit ↦ rw (hit, insert) (h.0, h.1)
      | inr miss ↦ rw (miss, insert) (h.0, insert-Keys k v entries p h.1)
    ]

    pub remove-Keys : (k : K) (entries : List (K × V)) → Keys entries → Keys (remove k entries)
    remove-Keys k [] h = tt
    remove-Keys k ((j, w) ∷ entries) h = elim (Bool-cases (same j k)) [
      | inl hit ↦ rw (hit, remove) (remove-Keys k entries h.1)
      | inr miss ↦ rw (miss, remove) (h.0, remove-Keys k entries h.1)
    ]

    -- What is left has other keys.
    pub remove-Keys_other :
        (k : K) (entries : List (K × V))
        → All (λ e. e.0 ≢ k → P e.0) entries
        → Keys (remove k entries)
    remove-Keys_other k [] h = tt
    remove-Keys_other k ((j, w) ∷ entries) h = elim (Bool-cases (same j k)) [
      | inl hit ↦ rw (hit, remove) (remove-Keys_other k entries h.1)
      | inr miss ↦
          let other : j ≢ k = λ e. differ (sym miss ∙ ap (λ i. same i k) e ∙ same_refl k) in
          rw (miss, remove) (h.0 other, remove-Keys_other k entries h.1)
    ]
      where
        differ : false ≡ true → ⊥
        differ e = cc

  pub lookup-insert_other :
      (j k : K) (v : V) (entries : List (K × V))
      → k ≢ j
      → lookup j (insert k v entries) ≡ lookup j entries
  lookup-insert_other j k v [] ne = elim (Bool-cases (same k j)) [
    | inl hit ↦ absurd (ne (same_sound k j hit))
    | inr miss ↦ rw (miss, lookup)
  ]
  lookup-insert_other j k v ((i, w) ∷ entries) ne = elim (Bool-cases (same i k)) [
    | inl hit ↦
        let placed : insert k v ((i, w) ∷ entries) ≡ (i, v) ∷ entries = rw (hit, insert) in
        let other : same i j ≡ false = apart (ap (λ t. same t j) (same_sound i k hit)) in
        ap (lookup j) placed ∙ at_other i v entries other ∙ sym (at_other i w entries other)
    | inr miss ↦
        let placed : insert k v ((i, w) ∷ entries) ≡ (i, w) ∷ insert k v entries =
          rw (miss, insert) in
        ap (lookup j) placed
        ∙ ap (λ rest. elim (same i j) as (λ t. Option V) [ true ↦ some w | false ↦ rest ])
            (lookup-insert_other j k v entries ne)
  ]
    where
      at_other :
          (i : K) (w : V) (entries : List (K × V))
          → same i j ≡ false
          → lookup j ((i, w) ∷ entries) ≡ lookup j entries
      at_other i w entries miss = rw (miss, lookup)

      apart : same i j ≡ same k j → same i j ≡ false
      apart e = elim (Bool-cases (same k j)) [
        | inl hit ↦ absurd (ne (same_sound k j hit))
        | inr miss ↦ e ∙ miss
      ]

  pub length-insert :
      (k : K) (v : V) (entries : List (K × V)) → length (insert k v entries) ≤ suc (length entries)
  length-insert k v [] = omega arith
  length-insert k v ((i, w) ∷ entries) = elim (Bool-cases (same i k)) [
    | inl hit ↦
        let placed : insert k v ((i, w) ∷ entries) ≡ (i, v) ∷ entries = rw (hit, insert) in
        omega (arith, ap length placed)
    | inr miss ↦
        let placed : insert k v ((i, w) ∷ entries) ≡ (i, w) ∷ insert k v entries =
          rw (miss, insert) in
        omega (arith, ap length placed, length-insert k v entries)
  ]

  pub lookup-remove_other :
      (j k : K) (entries : List (K × V))
      → same k j ≡ false
      → lookup j (remove k entries) ≡ lookup j entries
  lookup-remove_other j k [] ne = refl
  lookup-remove_other j k ((i, w) ∷ entries) ne = elim (Bool-cases (same i k)) [
    | inr miss ↦
        let kept : remove k ((i, w) ∷ entries) ≡ (i, w) ∷ remove k entries = rw (miss, remove) in
        ap (lookup j) kept
        ∙ ap (λ rest. elim (same i j) as (λ t. Option V) [ true ↦ some w | false ↦ rest ])
            (lookup-remove_other j k entries ne)
    | inl hit ↦
        let gone : remove k ((i, w) ∷ entries) ≡ remove k entries = rw (hit, remove) in
        let other : same i j ≡ false = ap (λ t. same t j) (same_sound i k hit) ∙ ne in
        ap (lookup j) gone ∙ lookup-remove_other j k entries ne ∙ sym (passed other)
  ]
    where
      passed : same i j ≡ false → lookup j ((i, w) ∷ entries) ≡ lookup j entries
      passed miss = rw (miss, lookup)
