-- ===== src/Trust/Revoked.antt =====
-- A revoked certificate is refused; what an import brings replaces the row with the same id.
use ultimate_enigma.Prelude.{
  ℕ, ◌≡◌, refl, sym, ap, ◌∙◌, List, [], ◌∷◌, ◌++◌, Bool, true, false, Bool-cases, inl, inr, not,
  if◌then◌else◌, Result, ok, err, Error, require,
}
use ultimate_enigma.Action.{Action, continue, after, after_lift, lift, give, get, put, ◌>>=◌, ◌>>◌}
use ultimate_enigma.Bytes.{same_bytes, same_bytes_refl, same_bytes_sound}
use ultimate_enigma.Utf8.{Text}
use ultimate_enigma.Trust.{TrustCertificate, is_expired}
use ultimate_enigma.Trust.Check.{KeyStore, Signer, verify_cert_object}
use ultimate_enigma.Trust.Service.{
  TrustStore, without, find_row, save_trust_certificate, save_or_fail, write_or_fail, skip_or_stop,
  publish, load_certificate, verify_certificate, with_reason, reason_or, revoke_certificate,
  certificate_revoked, is_importable, received, import_received_certs, skips,
}

find_row-without :
    (cert_id : Text) (c : TrustCertificate) (rows : List TrustCertificate)
    → c.cert_id ≡ cert_id
    → find_row cert_id (without cert_id rows ++ c ∷ []) ≡ ok c
unfolding find_row without
find_row-without cert_id c [] e =
    ap (λ t. if t then ok c else err (Error.certificate_error "not found"))
      (ap (λ i. same_bytes i cert_id) e ∙ same_bytes_refl cert_id)
find_row-without cert_id c (d ∷ rows) e = elim (Bool-cases (same_bytes d.cert_id cert_id)) [
  | inl hit ↦
      ap
        (λ t.
          find_row cert_id
            ((if t then without cert_id rows else d ∷ without cert_id rows) ++ c ∷ []))
        hit
      ∙ find_row-without cert_id c rows e
  | inr miss ↦
      ap
        (λ t.
          find_row cert_id
            ((if t then without cert_id rows else d ∷ without cert_id rows) ++ c ∷ []))
        miss
      ∙ ap (λ t. if t then ok d else find_row cert_id (without cert_id rows ++ c ∷ [])) miss
      ∙ find_row-without cert_id c rows e
]

find_row_sound :
    (cert_id : Text) (c : TrustCertificate) (rows : List TrustCertificate)
    → find_row cert_id rows ≡ ok c
    → c.cert_id ≡ cert_id
unfolding find_row
find_row_sound cert_id c [] h = cc
find_row_sound cert_id c (d ∷ rows) h = elim (Bool-cases (same_bytes d.cert_id cert_id)) [
  | inl hit ↦
      let found : ok d ≡ ok c = sym (ap (λ t. if t then ok d else find_row cert_id rows) hit) ∙ h in
      let same : d ≡ c = cc in
      ap (λ x. x.cert_id) (sym same) ∙ same_bytes_sound d.cert_id cert_id hit
  | inr miss ↦
      find_row_sound cert_id c rows
        (sym (ap (λ t. if t then ok d else find_row cert_id rows) miss) ∙ h)
]

module _ (ks : KeyStore) (signer : Signer) (takes : TrustCertificate → Bool) where
  -- The store after a write.
  abbrev pub saved : TrustCertificate → TrustStore → TrustStore
  saved cert s = record s { rows = without cert.cert_id s.rows ++ cert ∷ [] }

  pub save_trust_certificate-saved :
      (cert : TrustCertificate) (s : TrustStore)
      → takes cert ≡ true
      → save_trust_certificate ks signer takes cert s ≡ (ok tt, saved cert s)
  unfolding save_trust_certificate
  save_trust_certificate-saved cert s e =
      ap
        (λ t.
          continue (require t Error.database_error, s)
            (λ done. get >>= λ state.
              put (record state { rows = without cert.cert_id state.rows ++ cert ∷ [] })))
        e

  pub save_trust_certificate-refused :
      (cert : TrustCertificate) (s : TrustStore)
      → takes cert ≡ false
      → save_trust_certificate ks signer takes cert s ≡ (err Error.database_error, s)
  unfolding save_trust_certificate
  save_trust_certificate-refused cert s e =
      ap
        (λ t.
          continue (require t Error.database_error, s)
            (λ done. get >>= λ state.
              put (record state { rows = without cert.cert_id state.rows ++ cert ∷ [] })))
        e

  -- What a revocation that succeeded did.
  abbrev pub Revocation : Text → Text → TrustStore → TrustStore → Type 0
  Revocation cert_id reason s s' =
      (cert : TrustCertificate) × (cert.cert_id ≡ cert_id)
      × (find_row cert_id s.rows ≡ ok cert)
      × (s'.rows
          ≡ without cert_id s.rows
            ++ with_reason ks signer takes (reason_or ks signer takes reason) cert ∷ [])

  revoke_certificate-Revocation :
      (cert_id reason : Text) (s s' : TrustStore)
      → revoke_certificate ks signer takes cert_id reason s ≡ (ok tt, s')
      → Revocation cert_id reason s s'
  unfolding revoke_certificate load_certificate save_or_fail
  revoke_certificate-Revocation cert_id reason s s' h = found (find_row cert_id s.rows) refl h
    where
      next : TrustCertificate → Action TrustStore (Unit {0})
      next cert =
          save_or_fail ks signer takes "Failed to persist revocation"
            (with_reason ks signer takes (reason_or ks signer takes reason) cert)
          >> publish ks signer takes (certificate_revoked cert_id reason)

      found :
          (r : Result TrustCertificate)
          → find_row cert_id s.rows ≡ r
          → continue (r, s) next ≡ (ok tt, s')
          → Revocation cert_id reason s s'
      found (err e) same g = cc
      found (ok cert) same g = elim (Bool-cases (takes changed)) [
        | inl accepted ↦
            let id = find_row_sound cert_id cert s.rows same in
            let stored = save_trust_certificate-saved changed s accepted in
            let outcome : (
              ok tt,
              record s {
                rows = without cert.cert_id s.rows ++ changed ∷ [];
                published = s.published ++ certificate_revoked cert_id reason ∷ [];
              },
            )
                ≡ (ok tt, s') =
              sym (
                ap
                  (λ t.
                    continue
                      (write_or_fail ks signer takes "Failed to persist revocation" changed t s)
                      (λ done. publish ks signer takes (certificate_revoked cert_id reason)))
                  accepted
                ∙ ap
                    (λ o.
                      continue o
                        (λ done. publish ks signer takes (certificate_revoked cert_id reason)))
                    stored)
              ∙ g in
            (
              cert,
              id,
              same,
              sym (ap (λ o. o.1.rows) outcome) ∙ ap (λ i. without i s.rows ++ changed ∷ []) id,
            )
        | inr refused ↦ absurd (
            failed (
              sym (
                ap
                  (λ t.
                    continue
                      (write_or_fail ks signer takes "Failed to persist revocation" changed t s)
                      (λ done. publish ks signer takes (certificate_revoked cert_id reason)))
                  refused)
              ∙ g))
      ]
        where
          changed : TrustCertificate
          changed = with_reason ks signer takes (reason_or ks signer takes reason) cert

          failed : {e : Error} → ◌≡◌ {A = Result (Unit {0}) × TrustStore} (err e, s) (ok tt, s') → ⊥
          failed k = cc

  -- After a revocation that succeeded the certificate is refused as revoked, at any time.
  pub verify-revoke :
      (now : ℕ) (cert_id reason : Text) (s s' : TrustStore)
      → revoke_certificate ks signer takes cert_id reason s ≡ (ok tt, s')
      → verify_certificate ks signer takes now cert_id s' ≡ (err Error.certificate_revoked, s')
  unfolding verify_certificate load_certificate
  verify-revoke now cert_id reason s s' h =
      let (cert, id, was, rows) = revoke_certificate-Revocation cert_id reason s s' h in
      let changed = with_reason ks signer takes (reason_or ks signer takes reason) cert in
      let next : TrustCertificate → Action TrustStore Bool = λ c.
        lift (require (not c.revoked) Error.certificate_revoked)
        >> (lift (require (not (is_expired now c)) Error.certificate_expired)
            >> (lift (verify_cert_object ks signer c) >> give true)) in
      after_lift next (ap (find_row cert_id) rows ∙ find_row-without cert_id changed s.rows id)

  -- A certificate that can be imported and verifies is what its id stands for afterwards, whatever
  -- the store held under that id before.
  pub load-import :
      (cert : TrustCertificate) (s : TrustStore)
      → is_importable ks signer takes cert ≡ true
      → verify_cert_object ks signer cert ≡ ok tt
      → takes (received ks signer takes cert) ≡ true
      → (s' : TrustStore) × (import_received_certs ks signer takes (cert ∷ []) 0 s ≡ (ok 1, s'))
        × (load_certificate ks signer takes cert.cert_id s'
            ≡ (ok (received ks signer takes cert), s'))
  unfolding import_received_certs load_certificate
  load-import cert s importable checked accepted =
      let kept = received ks signer takes cert in
      (
        saved kept s,
        ap (λ t. importing t (verify_cert_object ks signer cert) s) importable
            ∙ ap (λ r. importing true r s) checked
            ∙ after (λ done. give 1) (save_trust_certificate-saved kept s accepted),
        ap (λ r. (r, saved kept s)) (find_row-without cert.cert_id kept s.rows refl),
      )
    where
      importing : Bool → Result (Unit {0}) → Action TrustStore ℕ
      importing fit result = elim fit [
        | false ↦ give 0
        | true ↦ elim result [
          | err e ↦ skip_or_stop ks signer takes (skips ks signer takes e) e (give 0)
          | ok done ↦
              save_trust_certificate ks signer takes (received ks signer takes cert) >> give 1
        ]
      ]
