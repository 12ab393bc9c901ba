-- ===== src/Trust.antt =====
-- models/trust_chain.py: certificates, their status and the trust level they give. Times are
-- natural numbers of seconds, and `now` is what `time.time()` returns.
pub mod Check
pub mod Cleared
pub mod Counted
pub mod Covered
pub mod Service
pub mod Level
pub mod Revoked
pub mod Delegation
pub mod Import
pub mod Issued
mod Tests
use ultimate_enigma.Prelude.{
  ℕ, zero, suc, ◌+◌, List, [], ◌∷◌, Bool, true, false, ltb, leb, ◌==◌, if◌then◌else◌, Result, ok,
  err, Error,
}
use ultimate_enigma.Bytes.{Bytes, same_bytes}
use ultimate_enigma.Utf8.{Text}

pub data CertificateType : Type 0 where
  identity recovery delegation : CertificateType

pub data TrustLevel : Type 0 where
  none_level basic verified trusted : TrustLevel

pub data RevocationStatus : Type 0 where
  valid revoked_status expired : RevocationStatus

-- `cert_type.value`
abbrev pub value_of : CertificateType → Text
value_of identity = b'i' ∷ b'd' ∷ b'e' ∷ b'n' ∷ b't' ∷ b'i' ∷ b't' ∷ b'y' ∷ []
value_of recovery = b'r' ∷ b'e' ∷ b'c' ∷ b'o' ∷ b'v' ∷ b'e' ∷ b'r' ∷ b'y' ∷ []
value_of delegation = b'd' ∷ b'e' ∷ b'l' ∷ b'e' ∷ b'g' ∷ b'a' ∷ b't' ∷ b'i' ∷ b'o' ∷ b'n' ∷ []

-- `CertificateType(value)`
unfoldable pub certificate_type : Text → Result CertificateType
certificate_type value =
    if same_bytes value (value_of identity)
    then ok identity
    else if same_bytes value (value_of recovery)
    then ok recovery
    else if same_bytes value (value_of delegation)
    then ok delegation
    else err (Error.value_error "not a valid CertificateType")

pub record TrustCertificate : Type 0 where
  pub cert_id : Text
  pub subject_name : Text
  pub subject_pub : Bytes
  pub issuer_name : Text
  pub issuer_pub : Bytes
  pub cert_type : CertificateType
  pub not_before : ℕ
  pub not_after : ℕ
  pub signature : Bytes
  pub revoked : Bool
  pub revocation_reason : Text
  pub received_from : Text
  pub created_at : ℕ

unfoldable pub is_expired : ℕ → TrustCertificate → Bool
is_expired now c = ltb c.not_after now

unfoldable pub status : ℕ → TrustCertificate → RevocationStatus
status now c = if c.revoked then revoked_status else if is_expired now c then expired else valid

abbrev pub is_valid_status : RevocationStatus → Bool
is_valid_status valid = true
is_valid_status revoked_status = false
is_valid_status expired = false

abbrev pub one_if : Bool → ℕ
one_if true = 1
one_if false = 0

-- `sum(1 for c in certs if c.status() == RevocationStatus.VALID)`
unfoldable pub valid_count : ℕ → List TrustCertificate → ℕ
valid_count now [] = 0
valid_count now (c ∷ certs) = one_if (is_valid_status (status now c)) + valid_count now certs

-- The chain of tests on the count.
unfoldable pub level_of_count : ℕ → TrustLevel
level_of_count n =
    if leb 3 n then trusted else if n == 2 then verified else if n == 1 then basic else none_level

unfoldable pub compute_trust_level : ℕ → List TrustCertificate → TrustLevel
compute_trust_level now certs = level_of_count (valid_count now certs)
