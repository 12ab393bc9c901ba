-- ===== src/Action.antt =====
-- Methods that change the state of their object: an action takes the state and gives a result or
-- an exception, and the state that is left in either case.
use ultimate_enigma.Prelude.{◌≡◌, refl, ap, ◌∙◌, Result, ok, err, Error}

abbrev pub Action {ℓ κ} : Type ℓ → Type κ → Type (ℓ ⊔ κ)
Action S A = S → Result A × S

module _ {ℓ} {S : Type ℓ} where
  abbrev pub lift {κ} : {A : Type κ} → Result A → Action S A
  lift result state = (result, state)

  abbrev pub give {κ} : {A : Type κ} → A → Action S A
  give value state = (ok value, state)

  abbrev pub get : Action S S
  get state = (ok state, state)

  abbrev pub put : S → Action S (Unit {0})
  put state before = (ok tt, state)

module _ {ℓ κ μ} {S : Type ℓ} {A : Type κ} {B : Type μ} where
  abbrev pub continue : Result A × S → (A → Action S B) → Result B × S
  continue (err exception, state) next = (err exception, state)
  continue (ok value, state) next = next value state

  infixl 5 ◌>>=◌ ◌>>◌
  abbrev pub ◌>>=◌ : Action S A → (A → Action S B) → Action S B
  (first >>= next) state = continue (first state) next

  abbrev pub ◌>>◌ : Action S A → Action S B → Action S B
  first >> second = first >>= λ value. second

  pub after :
      {outcome : Result A × S} {value : A} {state : S} (next : A → Action S B)
      → outcome ≡ (ok value, state)
      → continue outcome next ≡ next value state
  after next e = ap (λ r. continue r next) e

  pub after_lift :
      {outcome : Result A} {value : A} {state : S} (next : A → Action S B)
      → outcome ≡ ok value
      → continue (outcome, state) next ≡ next value state
  after_lift {state} next e = ap (λ r. continue (r, state) next) e

  -- What a chain that succeeded went through.
  pub >>=-ok :
      (first : Action S A) (next : A → Action S B) (state final : S) {result : B}
      → (first >>= next) state ≡ (ok result, final)
      → (value : A) × (state' : S) × (first state ≡ (ok value, state'))
        × (next value state' ≡ (ok result, final))
  >>=-ok first next state final h = split (first state) refl h
    where
      split :
          {result : B} (outcome : Result A × S)
          → first state ≡ outcome
          → continue outcome next ≡ (ok result, final)
          → (value : A) × (state' : S) × (first state ≡ (ok value, state'))
            × (next value state' ≡ (ok result, final))
      split (err exception, state') e h = cc
      split (ok value, state') e h = (value, state', e, h)

  pub lift-ok :
      (outcome : Result A) (next : A → Action S B) (state final : S) {result : B}
      → (lift outcome >>= next) state ≡ (ok result, final)
      → (value : A) × (outcome ≡ ok value) × (next value state ≡ (ok result, final))
  lift-ok (err exception) next state final h = cc
  lift-ok (ok value) next state final h = (value, refl, h)

-- `except Exception as e: raise other(e)`: the state is left as the exception found it.
module _ {ℓ κ} {S : Type ℓ} {A : Type κ} where
  abbrev pub raise_as : (Error → Error) → Result A × S → Result A × S
  raise_as other (ok value, state) = (ok value, state)
  raise_as other (err exception, state) = (err (other exception), state)

-- An action that leaves a part of the state as it is, also where it raises.
module _ {ℓ κ} {S : Type ℓ} {V : Type κ} (view : S → V) where
  pub record Keeps {μ} {A : Type μ} (action : Action S A) : Type (ℓ ⊔ κ) where
    pub kept : (state : S) → view (action state).1 ≡ view state

  pub Keeps-of {μ} :
      {A : Type μ} {action : Action S A}
      → ((state : S) → view (action state).1 ≡ view state)
      → Keeps action
  Keeps-of h = record { kept = h }

  pub Keeps-bind {μ ν} :
      {A : Type μ} {B : Type ν} (first : Action S A) {next : A → Action S B}
      → Keeps first
      → ((value : A) → Keeps (next value))
      → Keeps (first >>= next)
  Keeps-bind {A = A} first {next} h k = record {
    kept = λ state. split state (first state) (h.kept state);
  }
    where
      split :
          (state : S) (outcome : Result A × S)
          → view outcome.1 ≡ view state
          → view (continue outcome next).1 ≡ view state
      split state (err exception, between) e = e
      split state (ok value, between) e = (k value).kept between ∙ e

  pub Keeps-lift {μ ν} :
      {A : Type μ} {B : Type ν} (result : Result A) {next : A → Action S B}
      → ((value : A) → Keeps (next value))
      → Keeps (lift result >>= next)
  Keeps-lift result k = Keeps-bind (lift result) (Keeps-of (λ state. refl)) k

  pub Keeps-give {μ} : {A : Type μ} (value : A) → Keeps (give value)
  Keeps-give value = Keeps-of (λ state. refl)
