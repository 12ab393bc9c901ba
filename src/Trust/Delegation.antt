-- ===== src/Trust/Delegation.antt =====
-- services/trust_chain_service.py: what a delegate may do with the certificates of the friend who
-- gave the delegation.
use ultimate_enigma.Prelude.{
  ℕ, ◌+◌, List, [], ◌∷◌, Bool, true, false, ◌&&◌, ◌||◌, not, leb, if◌then◌else◌, Error, require,
}
use ultimate_enigma.Action.{Action, lift, give, get, ◌>>=◌, ◌>>◌}
use ultimate_enigma.Bytes.{same_bytes}
use ultimate_enigma.Utf8.{Text}
use ultimate_enigma.Trust.{
  CertificateType, identity, recovery, delegation, TrustCertificate, is_expired, status,
  is_valid_status,
}
use ultimate_enigma.Trust.Check.{KeyStore, Signer}
use ultimate_enigma.Trust.Service.{
  TrustStore, certificates_revoked, save_trust_certificate, publish, certificates_about,
  with_reason,
}

abbrev pub is_delegation : CertificateType → Bool
is_delegation identity = false
is_delegation recovery = false
is_delegation delegation = true

-- The comprehension over the rows of the local user.
unfoldable pub valid_delegations : ℕ → List TrustCertificate → List TrustCertificate
valid_delegations now [] = []
valid_delegations now (c ∷ certs) =
    let rest = valid_delegations now certs in
    if is_delegation c.cert_type && is_valid_status (status now c) then c ∷ rest else rest

-- `any(c.issuer_name == delegator_name for c in certs)`
unfoldable pub is_issued_by : Text → List TrustCertificate → Bool
is_issued_by name [] = false
is_issued_by name (c ∷ certs) = same_bytes c.issuer_name name || is_issued_by name certs

unfoldable pub to_revoke : ℕ → List TrustCertificate → List TrustCertificate
to_revoke now [] = []
to_revoke now (c ∷ certs) =
    let rest = to_revoke now certs in
    if not c.revoked && not (is_expired now c) then c ∷ rest else rest

module _ (ks : KeyStore) (signer : Signer) (takes : TrustCertificate → Bool) where
  unfoldable pub get_delegation_certs_held_by_me : ℕ → TrustStore → List TrustCertificate
  get_delegation_certs_held_by_me now s =
      valid_delegations now (certificates_about ks signer takes ks.my_name s)

  -- `f"Revoked by delegate {self._ks.my_name}"`
  abbrev pub delegate_reason : Text
  delegate_reason =
      b'R' ∷ b'e' ∷ b'v' ∷ b'o' ∷ b'k' ∷ b'e' ∷ b'd' ∷ b' ' ∷ b'b' ∷ b'y' ∷ b' ' ∷ b'd' ∷ b'e'
      ∷ b'l' ∷ b'e' ∷ b'g' ∷ b'a' ∷ b't' ∷ b'e' ∷ b' ' ∷ ks.my_name

  -- The loop; a write that fails is logged and not counted.
  unfoldable pub revoke_each : List TrustCertificate → ℕ → Action TrustStore ℕ
  revoke_each [] revoked_count = give revoked_count
  revoke_each (cert ∷ certs) revoked_count =
      let skip = revoke_each certs revoked_count in
      let count = revoke_each certs (revoked_count + 1) in
      let revoked_cert = with_reason ks signer takes delegate_reason cert in
      elim (takes revoked_cert) [
        | false ↦ skip
        | true ↦ save_trust_certificate ks signer takes revoked_cert >> count
      ]

  abbrev pub publish_if : Bool → Action TrustStore (Unit {0})
  publish_if false = give tt
  publish_if true = publish ks signer takes (certificates_revoked delegate_reason)

  unfoldable pub revoke_all_certs_for_delegator : ℕ → Text → Action TrustStore ℕ
  revoke_all_certs_for_delegator now delegator_name = do
    s ← get
    lift (
        require (is_issued_by delegator_name (get_delegation_certs_held_by_me now s))
          (Error.certificate_error "No valid delegation certificate"))
    revoked_count ←
        revoke_each (to_revoke now (certificates_about ks signer takes delegator_name s)) 0
    publish_if (leb 1 revoked_count)
    give revoked_count
