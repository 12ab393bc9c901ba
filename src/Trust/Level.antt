-- ===== src/Trust/Level.antt =====
-- The trust level counts the valid certificates, up to three, and falls with time only.
use ultimate_enigma.Prelude.{
  ℕ, zero, suc, ◌≤◌, ◌≡◌, refl, min, List, [], ◌∷◌, Bool, true, false, ltb, ltb→lt, lt→ltb,
  if◌then◌else◌, arith,
}
use ultimate_enigma.Trust.{
  TrustCertificate, TrustLevel, is_expired, status, is_valid_status, one_if, valid_count,
  level_of_count, compute_trust_level, none_level, basic, verified, trusted, valid, revoked_status,
  expired,
}

-- The value of the enumeration.
abbrev pub rank : TrustLevel → ℕ
rank none_level = 0
rank basic = 1
rank verified = 2
rank trusted = 3

rank-level_of_count : (n : ℕ) → rank (level_of_count n) ≡ min 3 n
unfolding level_of_count
rank-level_of_count zero = refl
rank-level_of_count (suc zero) = refl
rank-level_of_count (suc (suc zero)) = refl
rank-level_of_count (suc (suc (suc n))) = ground arith

abbrev status_by : Bool → Bool → ℕ
status_by is_revoked is_old =
    one_if
      (is_valid_status (if is_revoked then revoked_status else if is_old then expired else valid))

status_by_le :
    (is_revoked : Bool) (old old' : Bool)
    → (old ≡ true → old' ≡ true)
    → status_by is_revoked old' ≤ status_by is_revoked old
status_by_le true old old' h = omega arith
status_by_le false true true h = omega arith
status_by_le false true false h = let same : false ≡ true = h refl in cc
status_by_le false false true h = omega arith
status_by_le false false false h = omega arith

valid_count-le :
    (now later : ℕ) (certs : List TrustCertificate)
    → now ≤ later
    → valid_count later certs ≤ valid_count now certs
unfolding valid_count status is_expired
valid_count-le now later [] h = omega arith
valid_count-le now later (c ∷ certs) h = omega (
  arith,
  valid_count-le now later certs h,
  status_by_le c.revoked (ltb c.not_after now) (ltb c.not_after later)
      (λ e. lt→ltb c.not_after later (omega (arith, ltb→lt c.not_after now e))),
)

-- The level is the number of valid certificates, and 3 for more.
pub rank-level :
    (now : ℕ) (certs : List TrustCertificate)
    → rank (compute_trust_level now certs) ≡ min 3 (valid_count now certs)
unfolding compute_trust_level
rank-level now certs = rank-level_of_count (valid_count now certs)

-- Without new certificates the level never rises with time.
pub compute_trust_level-decays :
    (now later : ℕ) (certs : List TrustCertificate)
    → now ≤ later
    → rank (compute_trust_level later certs) ≤ rank (compute_trust_level now certs)
compute_trust_level-decays now later certs h =
    omega (arith, rank-level now certs, rank-level later certs, valid_count-le now later certs h)
