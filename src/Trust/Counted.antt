-- ===== src/Trust/Counted.antt =====
-- The trust level of a friend as a count over the whole table, by the fields of a certificate.
use ultimate_enigma.Prelude.{
  ℕ, ◌+◌, ◌≡◌, refl, ap, ◌∙◌, min, List, [], ◌∷◌, length, Bool, true, false, ◌&&◌, not, ltb, leb,
  Bool-cases, ◌⊎◌, inl, inr, if◌then◌else◌, arith,
}
use ultimate_enigma.Bytes.{same_bytes}
use ultimate_enigma.Utf8.{Text}
use ultimate_enigma.Trust.{
  TrustCertificate, is_expired, status, is_valid_status, one_if, valid_count, valid, expired,
  revoked_status,
}
use ultimate_enigma.Trust.Check.{KeyStore, Signer}
use ultimate_enigma.Trust.Level.{rank, rank-level}
use ultimate_enigma.Trust.Service.{TrustStore, rows_about, certificates_about, get_trust_level}

-- A certificate about the name that is not revoked and whose last second is not past.
abbrev pub is_in_force : Text → ℕ → TrustCertificate → Bool
is_in_force name now c = same_bytes c.subject_name name && (not c.revoked && leb now c.not_after)

abbrev pub in_force : Text → ℕ → List TrustCertificate → List TrustCertificate
in_force name now [] = []
in_force name now (c ∷ rows) =
    let rest = in_force name now rows in if is_in_force name now c then c ∷ rest else rest

status-in_force :
    (now : ℕ) (c : TrustCertificate)
    → is_valid_status (status now c) ≡ (not c.revoked && leb now c.not_after)
unfolding status is_expired
status-in_force now c = split c.revoked (Bool-cases (ltb c.not_after now))
  where
    negated :
        (ltb c.not_after now ≡ true → leb now c.not_after ≡ false)
        × (ltb c.not_after now ≡ false → leb now c.not_after ≡ true)
    negated = (λ h. ground arith, λ h. ground arith)

    split :
        (b : Bool)
        → (ltb c.not_after now ≡ true) ⊎ (ltb c.not_after now ≡ false)
        → is_valid_status
            (if b then revoked_status else if ltb c.not_after now then expired else valid)
          ≡ (not b && leb now c.not_after)
    split true old = refl
    split false (inl old) = rw (old, negated.0 old) refl
    split false (inr fresh) = rw (fresh, negated.1 fresh) refl

valid_count-rows_about :
    (name : Text) (now : ℕ) (rows : List TrustCertificate)
    → valid_count now (rows_about name rows) ≡ length (in_force name now rows)
unfolding valid_count rows_about
valid_count-rows_about name now [] = refl
valid_count-rows_about name now (c ∷ rows) = elim (Bool-cases (same_bytes c.subject_name name)) [
  | inr other ↦ rw (other, valid_count-rows_about name now rows) refl
  | inl about ↦ rw about (
      counted (not c.revoked && leb now c.not_after) (status-in_force now c)
        (valid_count-rows_about name now rows))
]
  where
    counted :
        (b : Bool)
        → is_valid_status (status now c) ≡ b
        → valid_count now (rows_about name rows) ≡ length (in_force name now rows)
        → one_if (is_valid_status (status now c)) + valid_count now (rows_about name rows)
          ≡ length (if b then c ∷ in_force name now rows else in_force name now rows)
    counted true e rest = rw (e, rest) (omega arith)
    counted false e rest = rw (e, rest) (omega arith)

module _ (ks : KeyStore) (signer : Signer) (takes : TrustCertificate → Bool) where
  -- The trust level of a friend is the number of the certificates in the whole table that are about
  -- the friend, are not revoked and whose last second is not past, and 3 for more than three; two
  -- of one issuer count twice.
  pub rank-get_trust_level :
      (now : ℕ) (c : ℕ) (name : Text) (s : TrustStore)
      → rank (get_trust_level ks signer takes now (c ∷ name) s)
        ≡ min 3 (length (in_force (c ∷ name) now s.rows))
  unfolding get_trust_level certificates_about
  rank-get_trust_level now c name s =
      rank-level now (rows_about (c ∷ name) s.rows)
      ∙ ap (min 3) (valid_count-rows_about (c ∷ name) now s.rows)
