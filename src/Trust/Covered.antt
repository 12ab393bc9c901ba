-- ===== src/Trust/Covered.antt =====
-- The certificates about a friend that are valid, and the list of those to be revoked: what the
-- loop of a delegate leaves to do.
use ultimate_enigma.Prelude.{
  ℕ, ◌≡◌, refl, sym, ap, ◌∙◌, subst, arith, List, [], ◌∷◌, map, Bool, true, false, ◌&&◌, ◌||◌, not,
  Bool-cases, inl, inr, if◌then◌else◌, All,
}
use ultimate_enigma.Bytes.{same_bytes, same_bytes_refl, same_bytes_sound}
use ultimate_enigma.Utf8.{Text}
use ultimate_enigma.Trust.{
  TrustCertificate, valid, revoked_status, expired, is_expired, status, is_valid_status, one_if,
  valid_count,
}
use ultimate_enigma.Trust.Check.{is_member}
use ultimate_enigma.Trust.Delegation.{to_revoke}
use ultimate_enigma.Trust.Service.{rows_about, without}

abbrev ids : List TrustCertificate → List Text
ids certs = map (λ c. c.cert_id) certs

All-map {ℓ κ} :
    {A : Type ℓ} (P Q : A → Type κ) (xs : List A) → ((x : A) → P x → Q x) → All P xs → All Q xs
All-map P Q [] f h = tt
All-map P Q (x ∷ xs) f h = (f x h.0, All-map P Q xs f h.1)

same_bytes_sym : (xs ys : Text) → same_bytes xs ys ≡ true → same_bytes ys xs ≡ true
same_bytes_sym xs ys h = ap (λ zs. same_bytes ys zs) (same_bytes_sound xs ys h) ∙ same_bytes_refl ys

or_right : (a b : Bool) → b ≡ true → (a || b) ≡ true
or_right true b h = refl
or_right false b h = h

is_open : ℕ → TrustCertificate → Bool
is_open now c = not c.revoked && not (is_expired now c)

status-is_open : (now : ℕ) (c : TrustCertificate) → is_valid_status (status now c) ≡ is_open now c
unfolding status is_open
status-is_open now c = by_flags c.revoked (is_expired now c)
  where
    by_flags :
        (r x : Bool)
        → is_valid_status (if r then revoked_status else if x then expired else valid)
          ≡ (not r && not x)
    by_flags true x = refl
    by_flags false true = refl
    by_flags false false = refl

module _ (now : ℕ) (name : Text) where
  -- A valid certificate about the friend is still to be revoked.
  abbrev pub Covered : List TrustCertificate → TrustCertificate → Type 0
  Covered todo c =
      same_bytes c.subject_name name ≡ true
      → is_valid_status (status now c) ≡ true
      → is_member c.cert_id (ids todo) ≡ true

  pub to_revoke-covers :
      (rows : List TrustCertificate) → All (Covered (to_revoke now (rows_about name rows))) rows
  unfolding to_revoke rows_about is_open
  to_revoke-covers [] = tt
  to_revoke-covers (c ∷ rows) = elim (Bool-cases (same_bytes c.subject_name name)) [
    | inr miss ↦
        subst (λ t. All (Covered (to_revoke now (if t then c ∷ about else about))) (c ∷ rows))
          (sym miss)
          (λ hit. absurd (let no : false ≡ true = sym miss ∙ hit in cc), to_revoke-covers rows)
    | inl hit ↦
        subst (λ t. All (Covered (to_revoke now (if t then c ∷ about else about))) (c ∷ rows))
          (sym hit)
          (elim (Bool-cases (is_open now c)) [
            | inl fresh ↦
                subst (λ t. All (Covered (if t then c ∷ todo else todo)) (c ∷ rows)) (sym fresh)
                  (
                    λ about_name live.
                        ap (λ t. t || is_member c.cert_id (ids todo)) (same_bytes_refl c.cert_id),
                    All-map (Covered todo) (Covered (c ∷ todo)) rows
                        (λ d covered about_name live.
                          or_right (same_bytes c.cert_id d.cert_id) _ (covered about_name live))
                        (to_revoke-covers rows),
                  )
            | inr old ↦
                subst (λ t. All (Covered (if t then c ∷ todo else todo)) (c ∷ rows)) (sym old)
                  (
                    λ about_name live.
                        absurd (
                          let no : false ≡ true = sym old ∙ sym (status-is_open now c) ∙ live in
                          cc),
                    to_revoke-covers rows,
                  )
          ])
  ]
    where
      about : List TrustCertificate
      about = rows_about name rows

      todo : List TrustCertificate
      todo = to_revoke now about

  -- The rows with another id than the one that is replaced.
  pub without-covers :
      (c : TrustCertificate) (todo rows : List TrustCertificate)
      → All (Covered (c ∷ todo)) rows
      → All (Covered todo) (without c.cert_id rows)
  unfolding without
  without-covers c todo [] h = tt
  without-covers c todo (d ∷ rows) h = elim (Bool-cases (same_bytes d.cert_id c.cert_id)) [
    | inl hit ↦
        subst (λ t. All (Covered todo) (if t then rest else d ∷ rest)) (sym hit)
          (without-covers c todo rows h.1)
    | inr miss ↦
        subst (λ t. All (Covered todo) (if t then rest else d ∷ rest)) (sym miss)
          (λ about_name live. other miss (h.0 about_name live), without-covers c todo rows h.1)
  ]
    where
      rest : List TrustCertificate
      rest = without c.cert_id rows

      other :
          same_bytes d.cert_id c.cert_id ≡ false
          → is_member d.cert_id (ids (c ∷ todo)) ≡ true
          → is_member d.cert_id (ids todo) ≡ true
      other miss m = elim (Bool-cases (same_bytes c.cert_id d.cert_id)) [
        | inl hit ↦
            absurd (let no : false ≡ true = sym miss ∙ same_bytes_sym c.cert_id d.cert_id hit in cc)
        | inr away ↦ sym (ap (λ t. t || is_member d.cert_id (ids todo)) away) ∙ m
      ]

  pub none_left :
      (rows : List TrustCertificate)
      → All (Covered []) rows
      → valid_count now (rows_about name rows) ≡ 0
  unfolding valid_count rows_about
  none_left [] h = refl
  none_left (c ∷ rows) h = elim (Bool-cases (same_bytes c.subject_name name)) [
    | inr miss ↦
        ap (λ t. valid_count now (if t then c ∷ about else about)) miss ∙ none_left rows h.1
    | inl hit ↦
        ap (λ t. valid_count now (if t then c ∷ about else about)) hit
        ∙ elim (Bool-cases (is_valid_status (status now c))) [
          | inl live ↦ absurd (let no : false ≡ true = h.0 hit live in cc)
          | inr dead ↦
              let none : one_if (is_valid_status (status now c)) ≡ 0 = ap one_if dead in
              let rest = none_left rows h.1 in omega (arith, none, rest)
        ]
  ]
    where
      about : List TrustCertificate
      about = rows_about name rows
