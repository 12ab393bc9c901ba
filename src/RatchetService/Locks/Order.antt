-- ===== src/RatchetService/Locks/Order.antt =====
-- The order in which locks are acquired: strict, total, and the same for every list of the names.
use ultimate_enigma.Prelude.{
  ℕ, zero, suc, ◌<◌, ◌≡◌, refl, sym, ap, ◌∙◌, subst, ◌⊎◌, inl, inr, List, [], ◌∷◌, true, false,
  Bool-cases, All, get_elem?, some, none, arith,
}
use ultimate_enigma.Bytes.{same_bytes, same_bytes_refl, same_bytes_sound}
use ultimate_enigma.Utf8.{Text}
use ultimate_enigma.RatchetService.Locks.{text_lt, name_lt, insert_name, unique_names}

text_lt_irrefl : (xs : Text) → text_lt xs xs ≡ false
unfolding text_lt
text_lt_irrefl [] = refl
text_lt_irrefl (x ∷ xs) = ground (arith, text_lt_irrefl xs)

text_lt_trans :
    (xs ys zs : Text) → text_lt xs ys ≡ true → text_lt ys zs ≡ true → text_lt xs zs ≡ true
unfolding text_lt
text_lt_trans [] [] zs h k = cc
text_lt_trans [] (y ∷ ys) [] h k = cc
text_lt_trans [] (y ∷ ys) (z ∷ zs) h k = refl
text_lt_trans (x ∷ xs) [] zs h k = cc
text_lt_trans (x ∷ xs) (y ∷ ys) [] h k = cc
text_lt_trans (x ∷ xs) (y ∷ ys) (z ∷ zs) h k = ground (arith, text_lt_trans xs ys zs)

text_lt_total :
    (xs ys : Text) → text_lt xs ys ≡ false → same_bytes xs ys ≡ false → text_lt ys xs ≡ true
unfolding text_lt
text_lt_total [] [] h k = cc
text_lt_total [] (y ∷ ys) h k = cc
text_lt_total (x ∷ xs) [] h k = refl
text_lt_total (x ∷ xs) (y ∷ ys) h k = ground (arith, text_lt_total xs ys)

module _ (lower : Text → Text) where
  pub name_lt_irrefl : (a : Text) → name_lt lower a a ≡ false
  unfolding name_lt
  name_lt_irrefl a = ground (arith, text_lt_irrefl a, text_lt_irrefl (lower a))

  name_lt_cases :
      (a b : Text)
      → name_lt lower a b ≡ true
      → (text_lt (lower a) (lower b) ≡ true) ⊎ (lower a ≡ lower b) × (text_lt a b ≡ true)
  unfolding name_lt
  name_lt_cases a b h = elim (Bool-cases (text_lt (lower a) (lower b))) [
    | inl less ↦ inl less
    | inr other ↦ inr (same_bytes_sound (lower a) (lower b) (ground arith), ground arith)
  ]

  lower_lt : (a b : Text) → text_lt (lower a) (lower b) ≡ true → name_lt lower a b ≡ true
  unfolding name_lt
  lower_lt a b h = rw h

  same_lower_lt : (a b : Text) → lower a ≡ lower b → text_lt a b ≡ true → name_lt lower a b ≡ true
  unfolding name_lt
  same_lower_lt a b e h =
      let same : same_bytes (lower a) (lower b) ≡ true =
        ap (same_bytes (lower a)) (sym e) ∙ same_bytes_refl (lower a) in
      ground arith

  pub name_lt_trans :
      (a b c : Text)
      → name_lt lower a b ≡ true
      → name_lt lower b c ≡ true
      → name_lt lower a c ≡ true
  name_lt_trans a b c h k = elim (name_lt_cases a b h) [
    | inl less ↦ elim (name_lt_cases b c k) [
      | inl less' ↦ lower_lt a c (text_lt_trans (lower a) (lower b) (lower c) less less')
      | inr (e, t) ↦ lower_lt a c (subst (λ l. text_lt (lower a) l ≡ true) e less)
    ]
    | inr (e, t) ↦ elim (name_lt_cases b c k) [
      | inl less' ↦ lower_lt a c (subst (λ l. text_lt l (lower c) ≡ true) (sym e) less')
      | inr (e', t') ↦ same_lower_lt a c (e ∙ e') (text_lt_trans a b c t t')
    ]
  ]

  name_lt_total :
      (a b : Text) → same_bytes a b ≡ false → name_lt lower a b ≡ false → name_lt lower b a ≡ true
  unfolding name_lt
  name_lt_total a b other h = elim (Bool-cases (same_bytes (lower a) (lower b))) [
    | inr apart ↦ lower_lt b a (text_lt_total (lower a) (lower b) (ground arith) apart)
    | inl same ↦
        same_lower_lt b a (sym (same_bytes_sound (lower a) (lower b) same))
          (text_lt_total a b (ground arith) other)
  ]

  -- Every name is before all that follow it.
  abbrev pub IsSorted : List Text → Type 0
  IsSorted [] = Unit
  IsSorted (name ∷ names) = All (λ n. name_lt lower name n ≡ true) names × IsSorted names

  All-insert_name :
      (P : Text → Type 0) (name : Text) (names : List Text)
      → P name
      → All P names
      → All P (insert_name lower name names)
  unfolding insert_name
  All-insert_name P name [] p h = (p, tt)
  All-insert_name P name (other ∷ names) p h = elim (Bool-cases (same_bytes name other)) [
    | inl same ↦ rw same h
    | inr apart ↦ elim (Bool-cases (name_lt lower name other)) [
      | inl less ↦ rw (apart, less) (p, h)
      | inr more ↦ rw (apart, more) (h.0, All-insert_name P name names p h.1)
    ]
  ]

  before-All :
      (name other : Text) (names : List Text)
      → name_lt lower name other ≡ true
      → All (λ n. name_lt lower other n ≡ true) names
      → All (λ n. name_lt lower name n ≡ true) names
  before-All name other [] less h = tt
  before-All name other (n ∷ names) less h =
      (name_lt_trans name other n less h.0, before-All name other names less h.1)

  insert_name-IsSorted :
      (name : Text) (names : List Text) → IsSorted names → IsSorted (insert_name lower name names)
  unfolding insert_name
  insert_name-IsSorted name [] h = (tt, tt)
  insert_name-IsSorted name (other ∷ names) h = elim (Bool-cases (same_bytes name other)) [
    | inl same ↦ rw same h
    | inr apart ↦ elim (Bool-cases (name_lt lower name other)) [
      | inl less ↦ rw (apart, less) ((less, before-All name other names less h.0), h)
      | inr more ↦
          rw (apart, more)
            (
              All-insert_name (λ n. name_lt lower other n ≡ true) name names
                  (name_lt_total name other apart more) h.0,
              insert_name-IsSorted name names h.1,
            )
    ]
  ]

  pub unique_names-IsSorted : (names : List Text) → IsSorted (unique_names lower names)
  unfolding unique_names
  unique_names-IsSorted [] = tt
  unique_names-IsSorted (name ∷ names) =
      insert_name-IsSorted name (unique_names lower names) (unique_names-IsSorted names)

  pub get_elem?-All :
      (P : Text → Type 0) (names : List Text) (i : ℕ) (n : Text)
      → All P names
      → get_elem? names i ≡ some n
      → P n
  get_elem?-All P [] i n h e = absurd (missing e)
    where
      missing : none ≡ some n → ⊥
      missing k = cc
  get_elem?-All P (name ∷ names) zero n h e = subst P (named e) h.0
    where
      named : some name ≡ some n → name ≡ n
      named k = cc
  get_elem?-All P (name ∷ names) (suc i) n h e = get_elem?-All P names i n h.1 e

  -- In a sorted list an earlier place has a smaller name.
  pub IsSorted-lt :
      (names : List Text) (i j : ℕ) (a b : Text)
      → IsSorted names
      → i < j
      → get_elem? names i ≡ some a
      → get_elem? names j ≡ some b
      → name_lt lower a b ≡ true
  IsSorted-lt [] i j a b h lt ea eb = absurd (missing ea)
    where
      missing : none ≡ some a → ⊥
      missing k = cc
  IsSorted-lt (name ∷ names) i zero a b h lt ea eb = absurd (omega arith)
  IsSorted-lt (name ∷ names) zero (suc j) a b h lt ea eb =
      subst (λ n. name_lt lower n b ≡ true) (named ea)
        (get_elem?-All (λ n. name_lt lower name n ≡ true) names j b h.0 eb)
    where
      named : some name ≡ some a → name ≡ a
      named k = cc
  IsSorted-lt (name ∷ names) (suc i) (suc j) a b h lt ea eb =
      IsSorted-lt names i j a b h.1 (omega arith) ea eb
