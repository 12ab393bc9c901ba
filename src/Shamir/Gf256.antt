-- ===== src/Shamir/Gf256.antt =====
-- services/shamir_service.py: the tables of GF(256) and the operations that look them up. A look-up
-- out of range raises, as it does in Python.
pub mod TableFacts
pub mod Product
pub mod Linear
pub mod ByteField
pub mod Evaluate
pub mod Reference
use ultimate_enigma.Prelude.{
  ℕ, zero, suc, ◌+◌, ◌-◌, ◌*◌, ◌%◌, bit_and, bit_xor, List, [], ◌∷◌, get_or, set, replicate, ◌||◌,
  ◌==◌, if◌then◌else◌, Result, ok, err, Error, index, ◌>>=◌,
}

abbrev pub irreducible : ℕ
irreducible = 0x11D

pub record Tables : Type 0 where
  pub gf_exp : List ℕ
  pub gf_log : List ℕ

-- `x <<= 1`, reduced by the polynomial if that sets bit 8.
unfoldable pub double : ℕ → ℕ
double x = let y = x * 2 in if bit_and y 0x100 == 0 then y else bit_xor y irreducible

-- The first loop of `_build_tables`, from index `i` on.
fill : ℕ → ℕ → ℕ → Tables → Tables
fill zero i x t = t
fill (suc left) i x t =
    fill left (i + 1) (double x) (record { gf_exp = set t.gf_exp i x; gf_log = set t.gf_log x i })

-- The second loop; what it reads was written before.
copy : ℕ → ℕ → List ℕ → List ℕ
copy zero i exp = exp
copy (suc left) i exp = copy left (i + 1) (set exp i (get_or exp (i - 255) 0))

build_tables : Tables
unfolding fill copy double
build_tables =
    let t = fill 255 0 1 (record { gf_exp = replicate 512 0; gf_log = replicate 256 0 }) in
    record t { gf_exp = copy 257 255 t.gf_exp }

unfoldable pub gf_exp : List ℕ
unfolding build_tables
gf_exp = build_tables.gf_exp

unfoldable pub gf_log : List ℕ
unfolding build_tables
gf_log = build_tables.gf_log

unfoldable pub gf_add : ℕ → ℕ → ℕ
gf_add a b = bit_xor a b

unfoldable pub gf_mul : ℕ → ℕ → Result ℕ
gf_mul a b =
    if a == 0 || b == 0
    then ok 0
    else do la ← index gf_log a; lb ← index gf_log b; index gf_exp (la + lb)

unfoldable pub gf_pow : ℕ → ℕ → Result ℕ
gf_pow base exp =
    if exp == 0
    then ok 1
    else if base == 0
    then ok 0
    else do l ← index gf_log base; index gf_exp (l * exp % 255)

unfoldable pub gf_inv : ℕ → Result ℕ
gf_inv a =
    if a == 0 then err Error.zero_division_error else do l ← index gf_log a; index gf_exp (255 - l)

-- The loop of `_eval_poly`.
eval_poly_loop : ℕ → ℕ → ℕ → List ℕ → Result ℕ
eval_poly_loop result power x [] = ok result
eval_poly_loop result power x (c ∷ cs) = do
  term ← gf_mul c power
  power' ← gf_mul power x
  eval_poly_loop (gf_add result term) power' x cs

unfoldable pub eval_poly : List ℕ → ℕ → Result ℕ
unfolding eval_poly_loop
eval_poly coeffs x = eval_poly_loop 0 1 x coeffs
