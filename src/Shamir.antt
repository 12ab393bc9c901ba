-- ===== src/Shamir.antt =====
-- services/shamir_service.py: `ShamirService`, Shamir's secret sharing over GF(256). What
-- `secrets.randbelow(256)` returns at its n-th call is an argument, `draw n`.
pub mod Gf256
pub mod Basis
pub mod Coefficients
pub mod Split
pub mod Combine
pub mod RoundTrip
mod Tests
use ultimate_enigma.Prelude.{
  ℕ, zero, suc, ◌+◌, ◌-◌, ◌*◌, ◌%◌, List, [], ◌∷◌, ◌++◌, map, length, get_elem?, set, replicate,
  Bool, true, false, ◌&&◌, not, ltb, leb, ◌==◌, if◌then◌else◌, Result, ok, err, Error, index,
  require, ◌>>=◌, ◌>>◌,
}
use ultimate_enigma.Bytes.{Bytes}
use Gf256.{gf_add, gf_mul, gf_inv, eval_poly}

pub record Share : Type 0 where
  pub number : ℕ
  pub content : Bytes

-- `bytes(values)` raises for a value out of range.
pub bytes_of : List ℕ → Result Bytes
bytes_of [] = ok []
bytes_of (v ∷ vs) = do
  require (ltb v 256) (Error.value_error "bytes must be in range(0, 256)")
  rest ← bytes_of vs
  ok (v ∷ rest)

-- The `threshold - 1` random coefficients of one byte, from the call `n` on.
pub draws : (ℕ → ℕ) → ℕ → ℕ → List ℕ
draws draw n zero = []
draws draw n (suc count) = draw n ∷ draws draw (n + 1) count

-- `for i in range(num_shares): shares[i].append(...)`, from `i` on.
pub append_values : List ℕ → ℕ → List (List ℕ) → Result (List (List ℕ))
append_values coeffs i [] = ok []
append_values coeffs i (share ∷ shares) = do
  value ← eval_poly coeffs (i + 1)
  rest ← append_values coeffs (i + 1) shares
  ok ((share ++ value ∷ []) ∷ rest)

-- `for byte_val in secret`; `n` draws were made.
pub split_bytes : (ℕ → ℕ) → ℕ → ℕ → Bytes → List (List ℕ) → Result (List (List ℕ))
split_bytes draw n threshold [] shares = ok shares
split_bytes draw n threshold (byte_val ∷ secret) shares = do
  shares' ← append_values (byte_val ∷ draws draw n (threshold - 1)) 0 shares
  split_bytes draw (n + (threshold - 1)) threshold secret shares'

pub number_shares : ℕ → List (List ℕ) → Result (List Share)
number_shares i [] = ok []
number_shares i (share ∷ shares) = do
  content ← bytes_of share
  rest ← number_shares (i + 1) shares
  ok (record { number = i + 1; content = content } ∷ rest)

-- A negative argument of the source fails the same tests as 0.
unfoldable pub split_secret : (ℕ → ℕ) → Bytes → ℕ → ℕ → Result (List Share)
unfolding bytes_of draws append_values split_bytes number_shares
split_secret draw secret num_shares threshold = do
  require (not (length secret == 0)) (Error.shamir_error "Secret must not be empty")
  require (leb 2 threshold) (Error.shamir_error "Threshold must be at least 2")
  require (leb threshold num_shares) (Error.shamir_error "num_shares must be >= threshold")
  require (leb num_shares 10) (Error.shamir_error "num_shares must be <= 10")
  shares ← split_bytes draw 0 threshold secret (replicate num_shares [])
  number_shares 0 shares

-- `for k, c in enumerate(basis)`, which multiplies the basis by `x - xj`, from `k` on.
multiply_loop : ℕ → ℕ → List ℕ → List ℕ → Result (List ℕ)
multiply_loop xj k [] new_basis = ok new_basis
multiply_loop xj k (c ∷ basis) new_basis = do
  term ← gf_mul c xj
  low ← index new_basis k
  let new_basis' = set new_basis k (gf_add low term)
  high ← index new_basis' (k + 1)
  multiply_loop xj (k + 1) basis (set new_basis' (k + 1) (gf_add high c))

pub multiply : ℕ → List ℕ → Result (List ℕ)
unfolding multiply_loop
multiply xj basis = multiply_loop xj 0 basis (replicate (length basis + 1) 0)

-- `for j in range(n)`, from `j` on: the basis polynomial and the denominator.
pub basis_loop : ℕ → ℕ → ℕ → List ℕ → List ℕ → ℕ → Result (List ℕ × ℕ)
basis_loop i xi j [] basis denom = ok (basis, denom)
basis_loop i xi j (xj ∷ points) basis denom = elim (i == j) [
  | true ↦ basis_loop i xi (j + 1) points basis denom
  | false ↦ do
    basis' ← multiply xj basis
    denom' ← gf_mul denom (gf_add xi xj)
    basis_loop i xi (j + 1) points basis' denom'
]

-- `for i in range(n)`, from `i` on. The source evaluates the basis at `x` by the same loop as
-- `_eval_poly`.
pub coefficients_loop : ℕ → List ℕ → ℕ → List ℕ → Result (List ℕ)
coefficients_loop x points i [] = ok []
coefficients_loop x points i (xi ∷ rest) = do
  (basis, denom) ← basis_loop i xi 0 points (1 ∷ []) 1
  value ← eval_poly basis x
  inverse ← gf_inv denom
  coefficient ← gf_mul value inverse
  others ← coefficients_loop x points (i + 1) rest
  ok (coefficient ∷ others)

unfoldable pub lagrange_coefficients : ℕ → List ℕ → Result (List ℕ)
unfolding multiply_loop multiply basis_loop coefficients_loop
lagrange_coefficients x points = coefficients_loop x points 0 points

pub column : ℕ → List Share → Result (List ℕ)
column byte_idx [] = ok []
column byte_idx (share ∷ shares) = do
  byte ← index share.content byte_idx
  rest ← column byte_idx shares
  ok (byte ∷ rest)

-- `for i, c in enumerate(coeffs)`, with the points still to come.
pub weighted_sum : ℕ → List ℕ → List ℕ → Result ℕ
weighted_sum val points [] = ok val
weighted_sum val [] (c ∷ coeffs) = err Error.index_error
weighted_sum val (point ∷ points) (c ∷ coeffs) = do
  term ← gf_mul point c
  weighted_sum (gf_add val term) points coeffs

pub reconstruct_byte : List Share → ℕ → Result ℕ
unfolding column weighted_sum
reconstruct_byte shares byte_idx = do
  points ← column byte_idx shares
  coeffs ← lagrange_coefficients 0 (map (λ (s : Share). s.number) shares)
  weighted_sum 0 points coeffs

pub reconstruct_bytes : List Share → ℕ → ℕ → Result Bytes
reconstruct_bytes shares byte_idx zero = ok []
reconstruct_bytes shares byte_idx (suc left) = do
  val ← reconstruct_byte shares byte_idx
  require (ltb val 256) (Error.value_error "byte must be in range(0, 256)")
  rest ← reconstruct_bytes shares (byte_idx + 1) left
  ok (val ∷ rest)

-- All shares have the length `n`.
pub same_length : ℕ → List Share → Bool
same_length n [] = true
same_length n (share ∷ shares) = length share.content == n && same_length n shares

pub reconstruct_checked : Share → List Share → ℕ → Result Bytes
unfolding same_length reconstruct_byte reconstruct_bytes
reconstruct_checked first shares expected_length = do
  let actual_length = length first.content
  require (same_length actual_length shares) (Error.invalid_share "Shares have mismatched lengths")
  require (actual_length == expected_length) (Error.invalid_share "Share length != expected")
  reconstruct_bytes shares 0 expected_length

unfoldable pub reconstruct_secret : List Share → ℕ → Result Bytes
unfolding reconstruct_checked
reconstruct_secret [] expected_length = err Error.insufficient_shares
reconstruct_secret (share ∷ []) expected_length = err Error.insufficient_shares
reconstruct_secret (first ∷ second ∷ shares) expected_length =
    reconstruct_checked first (first ∷ second ∷ shares) expected_length
