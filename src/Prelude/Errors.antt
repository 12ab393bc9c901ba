-- ===== src/Prelude/Errors.antt =====
-- Python's exceptions as values. The text of an exception is kept where the source tells its
-- cases apart by it, without the parts that an f-string fills in.
use Prim.Native.Nat.{ℕ}
use Prim.Native.String.{String}
use mathlib.Core.Path.{◌≡◌, refl, ap}
use mathlib.Core.Bool.{Bool, true, false}
use mathlib.Core.List.{List, ◌∷◌, ◌++◌}
use mathlib.Core.Option.{none, some}
use ultimate_enigma.Prelude.Lists.{get_elem?, length, get_elem?-append}

pub data Error : Type 0 where
  value_error : String → Error
  runtime_error : String → Error
  struct_error index_error key_error attribute_error type_error database_error os_error
        zero_division_error unicode_error invalid_tag :
      Error
  shamir_error : String → Error
  insufficient_shares : Error
  invalid_share : String → Error
  certificate_error : String → Error
  certificate_revoked certificate_expired : Error
  certificate_signature_error : String → Error
  totp_validation_error : String → Error
  concurrency_error : Error
  -- `database.DatabaseError`, which is no `sqlite3.Error`: that is `database_error`.
  connection_error : Error
  invalid_signature key_store_error : Error
  -- With the seconds that are left.
  lockout_error : ℕ → Error
  ratchet_not_found_error ratchet_service_error ratchet_init_error json_decode_error : Error

pub data Result {ℓ} (A : Type ℓ) : Type ℓ where
  err : Error → Result A
  ok : A → Result A

-- The first exception ends the chain.
infixl 5 ◌>>=◌ ◌>>◌
abbrev pub ◌>>=◌ {ℓ κ} : {A : Type ℓ} {B : Type κ} → Result A → (A → Result B) → Result B
err exception >>= next = err exception
ok value >>= next = next value

abbrev pub ◌>>◌ {κ} : {B : Type κ} → Result (Unit {0}) → Result B → Result B
first >> second = first >>= λ done. second

-- `if not test: raise exception`
abbrev pub require : Bool → Error → Result (Unit {0})
require false exception = err exception
require true exception = ok tt

-- `xs[i]` of a list or of bytes, at an index that is not negative.
abbrev pub index {ℓ} : {A : Type ℓ} → List A → ℕ → Result A
index xs i = elim (get_elem? xs i) [ none ↦ err Error.index_error | some x ↦ ok x ]

pub >>=-ok {ℓ κ} :
    {A : Type ℓ} {B : Type κ} (first : Result A) (next : A → Result B) {result : B}
    → (first >>= next) ≡ ok result
    → (value : A) × (first ≡ ok value) × (next value ≡ ok result)
>>=-ok (err exception) next h = cc
>>=-ok (ok value) next h = (value, refl, h)

pub require-ok {κ} :
    {B : Type κ} (test : Bool) (exception : Error) (second : Result B) {result : B}
    → (require test exception >> second) ≡ ok result
    → (test ≡ true) × (second ≡ ok result)
require-ok false exception second h = cc
require-ok true exception second h = (refl, h)

pub ok_injective {ℓ} : {A : Type ℓ} {a b : A} → ok a ≡ ok b → a ≡ b
ok_injective h = cc

-- What follows a value that is known.
pub then {ℓ κ} :
    {A : Type ℓ} {B : Type κ} {first : Result A} {value : A} (next : A → Result B)
    → first ≡ ok value
    → (first >>= next) ≡ next value
then next e = ap (λ r. r >>= next) e

pub index-append {ℓ} :
    {A : Type ℓ} (xs ys : List A) (x : A) (i : ℕ) → i ≡ length xs → index (xs ++ x ∷ ys) i ≡ ok x
index-append xs ys x i e = rw (get_elem?-append xs ys x i e, index)
