-- ===== src/Trust/Service.antt =====
-- services/trust_chain_service.py: issuing, verification, revocation and import. A row
-- of the database stands for the certificate that it decodes to, and the table is kept in the
-- order in which a query returns it. `takes` tells whether the database takes a write. The lock is
-- held by every method from beginning to end.
use ultimate_enigma.Prelude.{
  ℕ, ◌+◌, List, [], ◌∷◌, ◌++◌, Bool, true, false, ◌&&◌, not, if◌then◌else◌, Result, ok, err, Error,
  require, String,
}
use ultimate_enigma.Action.{Action, lift, give, get, put, ◌>>=◌, ◌>>◌}
use ultimate_enigma.Bytes.{same_bytes}
use ultimate_enigma.Utf8.{Text}
use ultimate_enigma.Trust.{TrustCertificate, TrustLevel, is_expired, compute_trust_level}
use ultimate_enigma.Trust.Check.{KeyStore, Signer, is_filled, new_certificate, verify_cert_object}

pub data Event : Type 0 where
  certificate_issued : TrustCertificate → Event
  certificate_revoked : Text → Text → Event
  certificates_revoked : Text → Event

-- The table of certificates and what was published.
pub record TrustStore : Type 0 where
  pub rows : List TrustCertificate
  pub published : List Event

-- The rows with another id.
unfoldable pub without : Text → List TrustCertificate → List TrustCertificate
without cert_id [] = []
without cert_id (c ∷ rows) =
    let rest = without cert_id rows in if same_bytes c.cert_id cert_id then rest else c ∷ rest

unfoldable pub find_row : Text → List TrustCertificate → Result TrustCertificate
find_row cert_id [] = err (Error.certificate_error "not found")
find_row cert_id (c ∷ rows) =
    let rest = find_row cert_id rows in if same_bytes c.cert_id cert_id then ok c else rest

unfoldable pub rows_about : Text → List TrustCertificate → List TrustCertificate
rows_about name [] = []
rows_about name (c ∷ rows) =
    let rest = rows_about name rows in if same_bytes c.subject_name name then c ∷ rest else rest

module _ (ks : KeyStore) (signer : Signer) (takes : TrustCertificate → Bool) where
  -- `database.save_trust_certificate`, an INSERT OR REPLACE by the id.
  unfoldable pub save_trust_certificate : TrustCertificate → Action TrustStore (Unit {0})
  save_trust_certificate cert = do
    lift (require (takes cert) Error.database_error)
    s ← get
    put (record s { rows = without cert.cert_id s.rows ++ cert ∷ [] })

  -- The exception of a failed write is replaced.
  abbrev pub write_or_fail : String → TrustCertificate → Bool → Action TrustStore (Unit {0})
  write_or_fail text cert true = save_trust_certificate cert
  write_or_fail text cert false = lift (err (Error.certificate_error text))

  unfoldable pub save_or_fail : String → TrustCertificate → Action TrustStore (Unit {0})
  save_or_fail text cert = write_or_fail text cert (takes cert)

  abbrev pub publish : Event → Action TrustStore (Unit {0})
  publish event s = (ok tt, record s { published = s.published ++ event ∷ [] })

  unfoldable pub issue_certificate :
      ℕ → Text → Text → Text → Text → ℕ → Action TrustStore TrustCertificate
  issue_certificate now cert_id subject_name subject_pub_b64 cert_type validity_days = do
    cert ←
        lift (
          new_certificate ks signer now cert_id subject_name subject_pub_b64 cert_type
            validity_days)
    save_or_fail "Failed to persist certificate" cert
    publish (certificate_issued cert)
    give cert

  unfoldable pub load_certificate : Text → Action TrustStore TrustCertificate
  load_certificate cert_id s = (find_row cert_id s.rows, s)

  unfoldable pub verify_certificate : ℕ → Text → Action TrustStore Bool
  verify_certificate now cert_id = do
    cert ← load_certificate cert_id
    lift (require (not cert.revoked) Error.certificate_revoked)
    lift (require (not (is_expired now cert)) Error.certificate_expired)
    lift (verify_cert_object ks signer cert)
    give true

  -- `reason or "unspecified"`
  abbrev pub reason_or : Text → Text
  reason_or [] = b'u' ∷ b'n' ∷ b's' ∷ b'p' ∷ b'e' ∷ b'c' ∷ b'i' ∷ b'f' ∷ b'i' ∷ b'e' ∷ b'd' ∷ []
  reason_or (c ∷ reason) = c ∷ reason

  abbrev pub with_reason : Text → TrustCertificate → TrustCertificate
  with_reason reason cert = record cert { revoked = true; revocation_reason = reason }

  unfoldable pub revoke_certificate : Text → Text → Action TrustStore (Unit {0})
  revoke_certificate cert_id reason = do
    cert ← load_certificate cert_id
    save_or_fail "Failed to persist revocation" (with_reason (reason_or reason) cert)
    publish (certificate_revoked cert_id reason)

  -- The rows of one subject; an empty name is no filter.
  unfoldable pub certificates_about : Text → TrustStore → List TrustCertificate
  certificates_about [] s = s.rows
  certificates_about (c ∷ name) s = rows_about (c ∷ name) s.rows

  unfoldable pub get_trust_level : ℕ → Text → TrustStore → TrustLevel
  get_trust_level now friend_name s = compute_trust_level now (certificates_about friend_name s)

  -- The checks of one certificate before it is imported.
  unfoldable pub is_importable : TrustCertificate → Bool
  is_importable cert =
      is_filled cert.subject_name && is_filled cert.issuer_name && is_filled cert.signature

  abbrev pub sender_of : Text → Text
  sender_of [] = ks.my_name
  sender_of (c ∷ name) = c ∷ name

  abbrev pub received : TrustCertificate → TrustCertificate
  received cert = record cert { received_from = sender_of cert.received_from }

  -- What a check that failed does to the import: the loop goes on after the exceptions that it
  -- catches.
  abbrev pub skips : Error → Bool
  skips (Error.certificate_signature_error text) = true
  skips (Error.value_error text) = true
  skips Error.unicode_error = true
  skips Error.json_decode_error = true
  skips Error.key_error = true
  skips Error.type_error = true
  skips e = false

  abbrev pub skip_or_stop : Bool → Error → Action TrustStore ℕ → Action TrustStore ℕ
  skip_or_stop true e skip = skip
  skip_or_stop false e skip = lift (err e)

  unfoldable pub import_received_certs : List TrustCertificate → ℕ → Action TrustStore ℕ
  import_received_certs [] imported = give imported
  import_received_certs (cert ∷ certs) imported =
      let skip = import_received_certs certs imported in
      let count = import_received_certs certs (imported + 1) in
      elim (is_importable cert) [
        | false ↦ skip
        | true ↦ elim (verify_cert_object ks signer cert) [
          | err e ↦ skip_or_stop (skips e) e skip
          | ok checked ↦ save_trust_certificate (received cert) >> count
        ]
      ]
