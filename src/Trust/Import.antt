-- ===== src/Trust/Import.antt =====
-- An import keeps the table free of certificates that do not verify against the pinned keys.
use ultimate_enigma.Prelude.{
  ℕ, ◌+◌, ◌≡◌, refl, sym, subst, List, [], ◌∷◌, ◌++◌, Bool, true, false, Bool-cases, inl, inr,
  if◌then◌else◌, Result, ok, err, All,
}
use ultimate_enigma.Action.{Action, continue, ◌>>◌}
use ultimate_enigma.Bytes.{same_bytes}
use ultimate_enigma.Utf8.{Text}
use ultimate_enigma.Trust.{TrustCertificate}
use ultimate_enigma.Trust.Check.{KeyStore, Signer, verify_cert_object}
use ultimate_enigma.Trust.Revoked.{
  saved, save_trust_certificate-saved, save_trust_certificate-refused,
}
use ultimate_enigma.Trust.Service.{
  TrustStore, without, save_trust_certificate, is_importable, received, import_received_certs,
  skips, skip_or_stop,
}

module _ (P : TrustCertificate → Type 0) where
  pub All-without :
      (cert_id : Text) (rows : List TrustCertificate) → All P rows → All P (without cert_id rows)
  unfolding without
  All-without cert_id [] h = tt
  All-without cert_id (c ∷ rows) h = elim (Bool-cases (same_bytes c.cert_id cert_id)) [
    | inl hit ↦
        subst (λ t. All P (if t then without cert_id rows else c ∷ without cert_id rows)) (sym hit)
          (All-without cert_id rows h.1)
    | inr miss ↦
        subst (λ t. All P (if t then without cert_id rows else c ∷ without cert_id rows)) (sym miss)
          (h.0, All-without cert_id rows h.1)
  ]

  pub All-snoc :
      (rows : List TrustCertificate) (c : TrustCertificate)
      → All P rows
      → P c
      → All P (rows ++ c ∷ [])
  All-snoc [] c h p = (p, tt)
  All-snoc (d ∷ rows) c h p = (h.0, All-snoc rows c h.1 p)

module _ (ks : KeyStore) (signer : Signer) (takes : TrustCertificate → Bool) where
  -- Every certificate of the table verifies.
  abbrev pub AllVerified : TrustStore → Type 0
  AllVerified s = All (λ c. verify_cert_object ks signer c ≡ ok tt) s.rows

  importing :
      TrustCertificate → List TrustCertificate → ℕ → Bool → Result (Unit {0}) → Action TrustStore ℕ
  importing cert certs imported fit result = elim fit [
    | false ↦ import_received_certs ks signer takes certs imported
    | true ↦ elim result [
      | err e ↦
          skip_or_stop ks signer takes (skips ks signer takes e) e
            (import_received_certs ks signer takes certs imported)
      | ok done ↦
          save_trust_certificate ks signer takes (received ks signer takes cert)
          >> import_received_certs ks signer takes certs (imported + 1)
    ]
  ]

  received-verified :
      (cert : TrustCertificate)
      → verify_cert_object ks signer cert ≡ ok tt
      → verify_cert_object ks signer (received ks signer takes cert) ≡ ok tt
  unfolding verify_cert_object
  received-verified cert h = h

  -- An import, whether it comes to its end or is stopped by an exception, leaves only
  -- certificates that verify in a table that had only such certificates.
  pub import-AllVerified :
      (certs : List TrustCertificate) (imported : ℕ) (s : TrustStore)
      → AllVerified s
      → AllVerified (import_received_certs ks signer takes certs imported s).1
  unfolding import_received_certs importing
  import-AllVerified [] imported s h = h
  import-AllVerified (cert ∷ certs) imported s h =
      branch (is_importable ks signer takes cert) (verify_cert_object ks signer cert) refl
        (λ n t. import-AllVerified certs n t)
    where
      branch :
          (fit : Bool) (result : Result (Unit {0}))
          → verify_cert_object ks signer cert ≡ result
          → ((n : ℕ) (t : TrustStore)
              → AllVerified t
              → AllVerified (import_received_certs ks signer takes certs n t).1)
          → AllVerified (importing cert certs imported fit result s).1
      branch false result e rest = rest imported s h
      branch true (err x) e rest = elim (Bool-cases (skips ks signer takes x)) [
        | inl skip ↦
            subst
              (λ b.
                AllVerified
                  (skip_or_stop ks signer takes b x
                    (import_received_certs ks signer takes certs imported) s).1)
              (sym skip) (rest imported s h)
        | inr stop ↦
            subst
              (λ b.
                AllVerified
                  (skip_or_stop ks signer takes b x
                    (import_received_certs ks signer takes certs imported) s).1)
              (sym stop) h
      ]
      branch true (ok done) e rest = elim (Bool-cases (takes kept)) [
        | inl accepted ↦
            subst (λ o. AllVerified (continue o next).1)
              (sym (save_trust_certificate-saved ks signer takes kept s accepted))
              (rest (imported + 1) (saved ks signer takes kept s) (
                All-snoc Verifies (without kept.cert_id s.rows) kept
                  (All-without Verifies kept.cert_id s.rows h) (received-verified cert e)))
        | inr refused ↦
            subst (λ o. AllVerified (continue o next).1)
              (sym (save_trust_certificate-refused ks signer takes kept s refused)) h
      ]
        where
          kept : TrustCertificate
          kept = received ks signer takes cert

          next : Unit {0} → Action TrustStore ℕ
          next done' = import_received_certs ks signer takes certs (imported + 1)

          Verifies : TrustCertificate → Type 0
          Verifies c = verify_cert_object ks signer c ≡ ok tt
