-- ===== src/Trust/Issued.antt =====
-- services/trust_chain_service.py: the certificate that `issue_certificate` makes, under the check
-- of `_verify_cert_object`.
use ultimate_enigma.Prelude.{
  ℕ, ◌+◌, ◌*◌, ◌≤◌, ◌≡◌, refl, sym, ap, ◌∙◌, Bool, true, ◌&&◌, leb, if◌then◌else◌, Result, ok, err,
  Error, require, >>=-ok, require-ok, and_true, leb→le, subst, ok_injective, some, arith, ◌>>=◌,
  ◌>>◌,
}
use ultimate_enigma.Bytes.{Bytes, same_bytes, same_bytes_refl}
use ultimate_enigma.Utf8.{Text}
use ultimate_enigma.Trust.{TrustCertificate}
use ultimate_enigma.Trust.Check.{
  KeyStore, Signer, verify_cert_object, expected_issuer_pub, known_issuer, known_type, signed_data,
  new_certificate, is_filled, is_member, instead_of_failure, pinned_pub, pinned_pair,
}

instead_of_failure-ok {ℓ} :
    {A : Type ℓ} (other : Error) (r : Result A) {value : A}
    → instead_of_failure other r ≡ ok value
    → r ≡ ok value
instead_of_failure-ok other (ok value) h = h
instead_of_failure-ok other (err (Error.runtime_error text)) h = cc
instead_of_failure-ok other (err Error.os_error) h = cc
instead_of_failure-ok other (err e) h = h

validity_bounds : (days : ℕ) → (leb 1 days && leb days 3650) ≡ true → (1 ≤ days) × (days ≤ 3650)
validity_bounds days h =
    let (low, high) = and_true (leb 1 days) (leb days 3650) h in
    (leb→le 1 days low, leb→le days 3650 high)

module _ (ks : KeyStore) (signer : Signer) where
  -- The key that is expected of the local user is the user's own, once it is loaded.
  expected_issuer_pub-own :
      is_filled ks.my_hybrid_sig_combined_pub ≡ true
      → expected_issuer_pub ks signer ks.my_name ≡ ok (some ks.my_hybrid_sig_combined_pub)
  unfolding expected_issuer_pub
  expected_issuer_pub-own loaded =
      ap
        (λ t.
          if t
          then ok (some ks.my_hybrid_sig_combined_pub)
          else pinned_pub (pinned_pair ks.my_name ks.friends_hybrid_sig_pubs))
        (ap (λ t. t && is_filled ks.my_hybrid_sig_combined_pub) (same_bytes_refl ks.my_name)
          ∙ loaded)

  -- A certificate of the local user that is signed verifies.
  verify_cert_object-own :
      (cert : TrustCertificate)
      → is_filled ks.my_hybrid_sig_combined_pub ≡ true
      → cert.issuer_name ≡ ks.my_name
      → cert.issuer_pub ≡ ks.my_hybrid_sig_combined_pub
      → signer.check cert.issuer_pub
          (signed_data ks signer cert.subject_pub cert.cert_type cert.not_before cert.not_after)
          cert.signature
        ≡ ok true
      → verify_cert_object ks signer cert ≡ ok tt
  unfolding verify_cert_object
  verify_cert_object-own cert loaded name key signed =
      ap (λ r. r >>= λ expected. known_issuer ks signer expected >>= rest)
        (ap (expected_issuer_pub ks signer) name ∙ expected_issuer_pub-own loaded)
      ∙ ap (λ t. require t (Error.certificate_signature_error "Issuer key mismatch") >> checked)
          (ap (same_bytes cert.issuer_pub) (sym key) ∙ same_bytes_refl cert.issuer_pub)
      ∙ ap
          (λ r.
            instead_of_failure (Error.certificate_signature_error "Hybrid verification failed") r
            >>= verdict)
          signed
    where
      verdict : Bool → Result (Unit {0})
      verdict valid_signature =
          require valid_signature (Error.certificate_signature_error "signature is invalid")

      checked : Result (Unit {0})
      checked =
          instead_of_failure (Error.certificate_signature_error "Hybrid verification failed") (
            signer.check cert.issuer_pub
              (signed_data ks signer cert.subject_pub cert.cert_type cert.not_before cert.not_after)
              cert.signature)
          >>= verdict

      rest : Bytes → Result (Unit {0})
      rest expected_pub =
          require (same_bytes cert.issuer_pub expected_pub)
            (Error.certificate_signature_error "Issuer key mismatch")
          >> checked

  -- A certificate that new_certificate makes verifies, and its validity ends between one day and
  -- 3650 days after it was made, where the user's key is loaded and the signer accepts under that
  -- key what it signed.
  pub new_certificate-verify_cert_object :
      (now : ℕ) (cert_id subject_name subject_pub_b64 cert_type : Text) (validity_days : ℕ)
      (cert : TrustCertificate)
      → is_filled ks.my_hybrid_sig_combined_pub ≡ true
      → (accepts : (text signature : Bytes)
          → signer.sign text ≡ ok signature
          → signer.check ks.my_hybrid_sig_combined_pub text signature ≡ ok true)
      → new_certificate ks signer now cert_id subject_name subject_pub_b64 cert_type validity_days
        ≡ ok cert
      → (verify_cert_object ks signer cert ≡ ok tt)
        × (now + 86400 ≤ cert.not_after)
        × (cert.not_after ≤ now + 3650 * 86400)
  unfolding new_certificate
  new_certificate-verify_cert_object now cert_id subject_name subject_pub_b64 cert_type
        validity_days cert loaded accepts h =
      let (keys_loaded, h1) = require-ok ks.signing_keys_loaded _ _ h in
      let (is_friend, h2) = require-ok (is_member subject_name ks.friends) _ _ h1 in
      let (ct, is_type, h3) = >>=-ok (known_type cert_type) _ h2 in
      let (in_range, h4) = require-ok (leb 1 validity_days && leb validity_days 3650) _ _ h3 in
      let (subject_pub, decoded, h5) = >>=-ok (signer.b64decode subject_pub_b64) _ h4 in
      let (signature, signed, h6) = >>=-ok (instead_of_failure _ _) _ h5 in
      let sign_result = instead_of_failure-ok _ _ signed in
      let (one, most) = validity_bounds validity_days in_range in
      subst
        (λ c.
          (verify_cert_object ks signer c ≡ ok tt)
          × (now + 86400 ≤ c.not_after)
          × (c.not_after ≤ now + 3650 * 86400))
        (ok_injective h6)
        (
          verify_cert_object-own _ loaded refl refl (accepts _ signature sign_result),
          omega arith,
          omega arith,
        )
