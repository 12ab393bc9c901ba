-- ===== src/Trust/Cleared.antt =====
-- After a delegate revoked the certificates of a friend, none of them counts any more.
use ultimate_enigma.Prelude.{
  ℕ, ◌+◌, ◌≡◌, refl, ap, ◌∙◌, List, [], ◌∷◌, Bool, true, false, leb, ok, Error, require, All,
}
use ultimate_enigma.Action.{Action, continue, after, give, ◌>>=◌, ◌>>◌}
use ultimate_enigma.Utf8.{Text}
use ultimate_enigma.Trust.{
  TrustCertificate, none_level, status, valid_count, level_of_count, compute_trust_level,
}
use ultimate_enigma.Trust.Check.{KeyStore, Signer}
use ultimate_enigma.Trust.Delegation.{
  to_revoke, is_issued_by, get_delegation_certs_held_by_me, delegate_reason, revoke_each,
  publish_if, revoke_all_certs_for_delegator,
}
use ultimate_enigma.Trust.Import.{All-snoc}
use ultimate_enigma.Trust.Revoked.{saved, save_trust_certificate-saved}
use ultimate_enigma.Trust.Service.{
  TrustStore, rows_about, without, with_reason, save_trust_certificate, get_trust_level,
  certificates_about,
}
use ultimate_enigma.Trust.Covered.{Covered, to_revoke-covers, without-covers, none_left}

module _ (ks : KeyStore) (signer : Signer) (takes : TrustCertificate → Bool) where
  revoked_cert : TrustCertificate → TrustCertificate
  revoked_cert = with_reason ks signer takes (delegate_reason ks signer takes)

  -- One turn of the loop, with its write accepted, leaves the other certificates to the rest.
  saved-covers :
      (now : ℕ) (name : Text) (c : TrustCertificate) (todo : List TrustCertificate) (s : TrustStore)
      → All (Covered now name (c ∷ todo)) s.rows
      → All (Covered now name todo) (saved ks signer takes (revoked_cert c) s).rows
  unfolding status revoked_cert
  saved-covers now name c todo s h =
      All-snoc (Covered now name todo) (without c.cert_id s.rows) (revoked_cert c)
        (without-covers now name c todo s.rows h)
        (λ about_name live. absurd (let no : false ≡ true = live in cc))

  revoke_each-covers :
      (now : ℕ) (name : Text) (todo : List TrustCertificate) (n : ℕ) (s : TrustStore)
      → ((cert : TrustCertificate) → takes cert ≡ true)
      → All (Covered now name todo) s.rows
      → (m : ℕ) × (s' : TrustStore) × (revoke_each ks signer takes todo n s ≡ (ok m, s'))
        × All (Covered now name []) s'.rows
  unfolding revoke_each revoked_cert
  revoke_each-covers now name [] n s accepts h = (n, s, refl, h)
  revoke_each-covers now name (c ∷ todo) n s accepts h =
      let stored = saved ks signer takes (revoked_cert c) s in
      let (m, s', run, left) =
        revoke_each-covers now name todo (n + 1) stored accepts
          (saved-covers now name c todo s h) in
      (
        m,
        s',
        ap (λ t. turn t s) (accepts (revoked_cert c))
            ∙ after (λ done. revoke_each ks signer takes todo (n + 1))
                (save_trust_certificate-saved ks signer takes (revoked_cert c) s
                  (accepts (revoked_cert c)))
            ∙ run,
        left,
      )
    where
      turn : Bool → Action TrustStore ℕ
      turn t = elim t [
        | false ↦ revoke_each ks signer takes todo n
        | true ↦
            save_trust_certificate ks signer takes (revoked_cert c)
            >> revoke_each ks signer takes todo (n + 1)
      ]

  publish_if-rows :
      (b : Bool) (m : ℕ) (s : TrustStore)
      → (s' : TrustStore) × ((publish_if ks signer takes b >> give m) s ≡ (ok m, s'))
        × (s'.rows ≡ s.rows)
  publish_if-rows false m s = (s, refl, refl)
  publish_if-rows true m s = (_, refl, refl)

  -- A delegate of a named friend revokes all valid certificates about that friend, where the
  -- database takes every write: the call succeeds, and at that time the friend has no trust level
  -- afterwards.
  pub get_trust_level-revoke_all_certs_for_delegator :
      (now : ℕ) (c : ℕ) (cs : Text) (s : TrustStore)
      → is_issued_by (c ∷ cs) (get_delegation_certs_held_by_me ks signer takes now s) ≡ true
      → ((cert : TrustCertificate) → takes cert ≡ true)
      → (n : ℕ) × (s' : TrustStore) × (revoke_all_certs_for_delegator ks signer takes now (c ∷ cs) s
          ≡ (ok n, s'))
        × (get_trust_level ks signer takes now (c ∷ cs) s' ≡ none_level)
  unfolding revoke_all_certs_for_delegator get_trust_level certificates_about compute_trust_level
      level_of_count
  get_trust_level-revoke_all_certs_for_delegator now c cs s allowed accepts =
      let name : Text = c ∷ cs in
      let todo = to_revoke now (rows_about name s.rows) in
      let (m, s1, run, left) =
        revoke_each-covers now name todo 0 s accepts (to_revoke-covers now name s.rows) in
      let (s2, told, same) = publish_if-rows (leb 1 m) m s1 in
      let cleared =
        ap (λ rows. valid_count now (rows_about name rows)) same
        ∙ none_left now name s1.rows left in
      let count : ℕ → Action TrustStore ℕ = λ k. publish_if ks signer takes (leb 1 k) >> give k in
      let refusal = Error.certificate_error "No valid delegation certificate" in
      (
        m,
        s2,
        ap
              (λ t.
                continue (require t refusal, s)
                  (λ done. revoke_each ks signer takes todo 0 >>= count))
              allowed
            ∙ after count run
            ∙ told,
        ap level_of_count cleared,
      )
