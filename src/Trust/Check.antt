-- ===== src/Trust/Check.antt =====
-- services/trust_chain_service.py: the key that is pinned for an issuer, the check of a certificate
-- against it, and the certificate that issuing makes. The arguments are what `HybridSigner`,
-- `struct.pack(">d", time)` and Base64 do, and the keys of the key store.
use ultimate_enigma.Prelude.{
  ℕ, ◌+◌, ◌*◌, List, [], ◌∷◌, ◌++◌, length, Bool, true, false, ◌&&◌, ◌||◌, leb, if◌then◌else◌,
  Option, none, some, Result, ok, err, Error, require, ◌>>=◌, ◌>>◌,
}
use ultimate_enigma.Bytes.{Bytes, same_bytes, pack_be}
use ultimate_enigma.Utf8.{Text}
use ultimate_enigma.Trust.{CertificateType, TrustCertificate, certificate_type, value_of}

pub record KeyStore : Type 0 where
  pub my_name : Text
  pub signing_keys_loaded : Bool
  pub my_hybrid_sig_combined_pub : Bytes
  pub friends : List Text
  pub friends_hybrid_sig_pubs : List (Text × (Bytes × Bytes))

pub record Signer : Type 0 where
  pub sign : Bytes → Result Bytes
  -- `parse_combined_pub`, `load_ed_public_key` and `verify`, of the key, the text and its
  -- signature.
  pub check : Bytes → Bytes → Bytes → Result Bool
  pub pack_double : ℕ → Bytes
  pub b64decode : Text → Result Bytes

abbrev pub is_member : Text → List Text → Bool
is_member name [] = false
is_member name (n ∷ names) = same_bytes n name || is_member name names

unfoldable pub pinned_pair : Text → List (Text × (Bytes × Bytes)) → Option (Bytes × Bytes)
pinned_pair name [] = none
pinned_pair name ((n, pair) ∷ pairs) =
    let rest = pinned_pair name pairs in if same_bytes n name then some pair else rest

abbrev pub is_filled : Bytes → Bool
is_filled [] = false
is_filled (b ∷ bs) = true

-- `except (RuntimeError, OSError) as e`, with the exception that is raised instead.
abbrev pub instead_of_failure {ℓ} : {A : Type ℓ} → Error → Result A → Result A
instead_of_failure other (ok value) = ok value
instead_of_failure other (err (Error.runtime_error text)) = err other
instead_of_failure other (err Error.os_error) = err other
instead_of_failure other (err e) = err e

-- The exception that `CertificateType(cert_type)` raises is replaced.
abbrev pub known_type : Text → Result CertificateType
known_type cert_type = elim (certificate_type cert_type) [
  | ok ct ↦ ok ct
  | err e ↦ err (Error.certificate_error "Invalid certificate type")
]

abbrev pub combined_pub : Bytes × Bytes → Result Bytes
combined_pub pair = do
  ed_length ← pack_be 2 (length pair.0)
  dil_length ← pack_be 2 (length pair.1)
  ok (ed_length ++ (pair.0 ++ (dil_length ++ pair.1)))

abbrev pub pinned_pub : Option (Bytes × Bytes) → Result (Option Bytes)
pinned_pub none = ok none
pinned_pub (some pair) = do combined ← combined_pub pair; ok (some combined)

module _ (ks : KeyStore) (signer : Signer) where
  open signer use {sign, check, pack_double, b64decode}

  unfoldable pub expected_issuer_pub : Text → Result (Option Bytes)
  expected_issuer_pub issuer_name =
      if same_bytes issuer_name ks.my_name && is_filled ks.my_hybrid_sig_combined_pub
      then ok (some ks.my_hybrid_sig_combined_pub)
      else pinned_pub (pinned_pair issuer_name ks.friends_hybrid_sig_pubs)

  -- The text that is signed.
  abbrev pub signed_data : Bytes → CertificateType → ℕ → ℕ → Bytes
  signed_data subject_pub ct not_before not_after =
      subject_pub ++ (value_of ct ++ (pack_double not_before ++ pack_double not_after))

  abbrev pub known_issuer : Option Bytes → Result Bytes
  known_issuer none = err (Error.certificate_signature_error "Unknown issuer")
  known_issuer (some pub_key) = ok pub_key

  unfoldable pub verify_cert_object : TrustCertificate → Result (Unit {0})
  verify_cert_object cert = do
    expected ← expected_issuer_pub cert.issuer_name
    expected_pub ← known_issuer expected
    require (same_bytes cert.issuer_pub expected_pub)
        (Error.certificate_signature_error "Issuer key mismatch")
    valid_signature ←
        instead_of_failure (Error.certificate_signature_error "Hybrid verification failed") (
          check cert.issuer_pub
            (signed_data cert.subject_pub cert.cert_type cert.not_before cert.not_after)
            cert.signature)
    require valid_signature (Error.certificate_signature_error "signature is invalid")

  -- `issue_certificate` up to the write; `cert_id` is the new UUID.
  unfoldable pub new_certificate : ℕ → Text → Text → Text → Text → ℕ → Result TrustCertificate
  new_certificate now cert_id subject_name subject_pub_b64 cert_type validity_days = do
    require ks.signing_keys_loaded (Error.certificate_error "Hybrid signing keys not loaded")
    require (is_member subject_name ks.friends)
        (Error.certificate_error "Subject not found in friends list")
    ct ← known_type cert_type
    require (leb 1 validity_days && leb validity_days 3650)
        (Error.certificate_error "Validity days out of range")
    let not_after = now + validity_days * 86400
    subject_pub ← b64decode subject_pub_b64
    signature ←
        instead_of_failure (Error.certificate_error "Hybrid signing failed")
          (sign (signed_data subject_pub ct now not_after))
    ok (record {
      cert_id = cert_id;
      subject_name = subject_name;
      subject_pub = subject_pub;
      issuer_name = ks.my_name;
      issuer_pub = ks.my_hybrid_sig_combined_pub;
      cert_type = ct;
      not_before = now;
      not_after = not_after;
      signature = signature;
      revoked = false;
      revocation_reason = [];
      received_from = [];
      created_at = now;
    })
