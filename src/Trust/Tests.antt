-- ===== src/Trust/Tests.antt =====
-- Witnesses and tests for models/trust_chain.py and services/trust_chain_service.py.
use ultimate_enigma.Prelude.{
  ℕ, ◌+◌, ◌*◌, ◌%◌, ◌≤◌, ◌≡◌, refl, sym, ap, ◌++◌, length, ok_injective, [], ◌∷◌, Bool, true, false,
  ok, err, Error, min, arith, ◌∙◌,
}
use ultimate_enigma.Bytes.{Bytes, same_bytes, same_bytes_refl, pack_be, be_bytes}
use ultimate_enigma.Trust.{
  TrustCertificate, identity, compute_trust_level, valid_count, level_of_count, status, is_expired,
  trusted, none_level, delegation, value_of, certificate_type,
}
use ultimate_enigma.Trust.Check.{
  KeyStore, Signer, verify_cert_object, expected_issuer_pub, pinned_pair, new_certificate,
}
use ultimate_enigma.Trust.Cleared
use ultimate_enigma.Trust.Counted
use ultimate_enigma.Trust.Counted.{in_force}
use ultimate_enigma.Trust.Delegation.{
  is_issued_by, get_delegation_certs_held_by_me, revoke_all_certs_for_delegator, valid_delegations,
}
use ultimate_enigma.Trust.Import
use ultimate_enigma.Trust.Issued
use ultimate_enigma.Trust.Import.{AllVerified}
use ultimate_enigma.Trust.Level
use ultimate_enigma.Trust.Level.{rank}
use ultimate_enigma.Trust.Revoked
use ultimate_enigma.Trust.Service.{
  TrustStore, certificates_about, rows_about, get_trust_level, certificate_revoked, find_row,
  without, save_trust_certificate, save_or_fail, load_certificate, verify_certificate,
  revoke_certificate, import_received_certs, is_importable, received, with_reason,
}

abbrev keys : KeyStore
keys = record {
  my_name = b'm' ∷ b'e' ∷ [];
  signing_keys_loaded = true;
  my_hybrid_sig_combined_pub = 7 ∷ [];
  friends = (b'b' ∷ []) ∷ [];
  friends_hybrid_sig_pubs = (b'b' ∷ [], (3 ∷ [], 4 ∷ [])) ∷ [];
}

abbrev signer : Signer
signer = record {
  sign = λ text. ok (9 ∷ []);
  check = λ pub_key text signature. ok (same_bytes signature (9 ∷ []));
  pack_double = λ t. t % 256 ∷ [];
  b64decode = λ text. ok text;
}

abbrev takes : TrustCertificate → Bool
takes cert = true

-- A certificate of the friend "b" about "c".
abbrev cert : TrustCertificate
cert = record {
  cert_id = b'x' ∷ [];
  subject_name = b'c' ∷ [];
  subject_pub = 5 ∷ [];
  issuer_name = b'b' ∷ [];
  issuer_pub = 0 ∷ 1 ∷ 3 ∷ 0 ∷ 1 ∷ 4 ∷ [];
  cert_type = identity;
  not_before = 10;
  not_after = 1000;
  signature = 9 ∷ [];
  revoked = false;
  revocation_reason = [];
  received_from = [];
  created_at = 10;
}

abbrev store : TrustStore
store = record { rows = cert ∷ []; published = [] }

cert_verifies : verify_cert_object keys signer cert ≡ ok tt
unfolding verify_cert_object expected_issuer_pub pinned_pair pack_be be_bytes
cert_verifies = refl

abbrev after_revocation : TrustStore
after_revocation = record {
  rows = with_reason keys signer takes (b'l' ∷ []) cert ∷ [];
  published = certificate_revoked (b'x' ∷ []) (b'l' ∷ []) ∷ [];
}

revocation :
    revoke_certificate keys signer takes (b'x' ∷ []) (b'l' ∷ []) store ≡ (ok tt, after_revocation)
unfolding revoke_certificate load_certificate find_row save_or_fail save_trust_certificate without
revocation = refl

verify-revoke_example :
    verify_certificate keys signer takes 50 (b'x' ∷ []) after_revocation
    ≡ (err Error.certificate_revoked, after_revocation)
verify-revoke_example =
    Revoked.verify-revoke keys signer takes 50 (b'x' ∷ []) (b'l' ∷ []) store after_revocation
      revocation

importable : is_importable keys signer takes cert ≡ true
unfolding is_importable
importable = refl

-- The peer sends the certificate again, and it is no longer revoked.
load-import_example :
    (s' : TrustStore) × (import_received_certs keys signer takes (cert ∷ []) 0 after_revocation
      ≡ (ok 1, s'))
    × (load_certificate keys signer takes (b'x' ∷ []) s'
        ≡ (ok (received keys signer takes cert), s'))
load-import_example =
    Revoked.load-import keys signer takes cert after_revocation importable cert_verifies refl

import-AllVerified_example :
    AllVerified keys signer takes
      (import_received_certs keys signer takes (cert ∷ cert ∷ []) 0 store).1
import-AllVerified_example =
    Import.import-AllVerified keys signer takes (cert ∷ cert ∷ []) 0 store (cert_verifies, tt)

-- Three copies of one signed certificate under different ids, all of them accepted.
abbrev copy : Bytes → TrustCertificate
copy cert_id = record cert { cert_id = cert_id }

copies_are_trusted :
    compute_trust_level 50
      (import_received_certs keys signer takes
        (copy (b'1' ∷ []) ∷ copy (b'2' ∷ []) ∷ copy (b'3' ∷ []) ∷ [])
        0
        (record { rows = []; published = [] })).1.rows
    ≡ trusted
unfolding compute_trust_level valid_count level_of_count status is_expired import_received_certs
    is_importable verify_cert_object expected_issuer_pub pinned_pair pack_be be_bytes
    save_trust_certificate without
copies_are_trusted = refl

compute_trust_level-decays_example :
    rank (compute_trust_level 2000 (cert ∷ [])) ≤ rank (compute_trust_level 50 (cert ∷ []))
compute_trust_level-decays_example =
    Level.compute_trust_level-decays 50 2000 (cert ∷ []) (omega arith)

rank-get_trust_level_example :
    rank (
      get_trust_level keys signer takes 50
        (b'c' ∷ [])
        (record { rows = cert ∷ record cert { revoked = true } ∷ []; published = [] }))
    ≡ min 3 (length (in_force (b'c' ∷ []) 50 (cert ∷ record cert { revoked = true } ∷ [])))
rank-get_trust_level_example =
    Counted.rank-get_trust_level keys signer takes 50 b'c' []
      (record { rows = cert ∷ record cert { revoked = true } ∷ []; published = [] })

-- A signer whose signatures depend on the key and on the text.
abbrev keyed_signer : Signer
keyed_signer = record {
  sign = λ text. ok (7 ∷ text);
  check = λ pub_key text signature. ok (same_bytes signature (pub_key ++ text));
  pack_double = λ t. t % 256 ∷ [];
  b64decode = λ text. ok text;
}

keyed_signer_accepts :
    (text signature : Bytes)
    → keyed_signer.sign text ≡ ok signature
    → keyed_signer.check (7 ∷ []) text signature ≡ ok true
keyed_signer_accepts text signature e =
    ap ok (ap (λ s. same_bytes s (7 ∷ text)) (sym (ok_injective e)) ∙ same_bytes_refl (7 ∷ text))

abbrev issued : TrustCertificate
issued = record {
  cert_id = b'y' ∷ [];
  subject_name = b'b' ∷ [];
  subject_pub = 5 ∷ [];
  issuer_name = b'm' ∷ b'e' ∷ [];
  issuer_pub = 7 ∷ [];
  cert_type = identity;
  not_before = 10;
  not_after = 2592010;
  signature = 7 ∷ 5 ∷ value_of identity ++ 10 ∷ 10 ∷ [];
  revoked = false;
  revocation_reason = [];
  received_from = [];
  created_at = 10;
}

issuing :
    new_certificate keys keyed_signer 10 (b'y' ∷ []) (b'b' ∷ []) (5 ∷ []) (value_of identity) 30
    ≡ ok issued
unfolding new_certificate certificate_type
issuing = refl

new_certificate-verify_cert_object_example :
    (verify_cert_object keys keyed_signer issued ≡ ok tt)
    × (10 + 86400 ≤ issued.not_after)
    × (issued.not_after ≤ 10 + 3650 * 86400)
new_certificate-verify_cert_object_example =
    Issued.new_certificate-verify_cert_object keys keyed_signer 10 (b'y' ∷ []) (b'b' ∷ []) (5 ∷ [])
      (value_of identity) 30 issued refl keyed_signer_accepts issuing

-- The friend "b" delegated to the local user and has a certificate of the friend "c".
abbrev delegated : TrustStore
delegated = record {
  rows =
      record cert { cert_id = b'd' ∷ []; subject_name = b'm' ∷ b'e' ∷ []; cert_type = delegation }
      ∷ record cert { subject_name = b'b' ∷ []; issuer_name = b'c' ∷ [] }
      ∷ [];
  published = [];
}

delegate_allowed :
    is_issued_by (b'b' ∷ []) (get_delegation_certs_held_by_me keys signer takes 50 delegated) ≡ true
unfolding is_issued_by get_delegation_certs_held_by_me valid_delegations certificates_about
    rows_about status is_expired
delegate_allowed = refl

get_trust_level-revoke_all_certs_for_delegator_example :
    (n : ℕ) × (s' : TrustStore) × (revoke_all_certs_for_delegator keys signer takes 50
        (b'b' ∷ [])
        delegated
      ≡ (ok n, s'))
    × (get_trust_level keys signer takes 50 (b'b' ∷ []) s' ≡ none_level)
get_trust_level-revoke_all_certs_for_delegator_example =
    Cleared.get_trust_level-revoke_all_certs_for_delegator keys signer takes 50 b'b' [] delegated
      delegate_allowed (λ c. refl)
