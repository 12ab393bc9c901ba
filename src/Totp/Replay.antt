-- ===== src/Totp/Replay.antt =====
-- A code that was accepted is not accepted again: the counters of the accepted codes increase.
use mathlib.Core.List.Memᴰ
use mathlib.Core.List.{Memᴰ}
use ultimate_enigma.Prelude.{
  ℕ, zero, suc, ◌+◌, ◌/◌, ◌≤◌, ◌≡◌, refl, sym, ap, ◌∙◌, List, [], ◌∷◌, length, Bool, true, false,
  Bool-cases, inl, inr, ◌&&◌, ltb, lt→ltb, ◌==◌, if◌then◌else◌, Option, none, some, Result, ok, err,
  Error, arith,
}
use ultimate_enigma.Action.{Action, continue, give}
use ultimate_enigma.Bytes.{Bytes}
use ultimate_enigma.Utf8.{Text}
use ultimate_enigma.Totp.{
  TotpService, advance, accept, try_candidates, verify, strip, all_digits, step_before,
  totp_interval,
}
use ultimate_enigma.Totp.Code.{fits, secret_of}

module _ (digest : Bytes → Bytes → Bytes) (is_space is_digit : ℕ → Bool) where
  -- What an accepted code shows: the counter that it belongs to is a candidate and was not used
  -- before, it is used now, and the same candidates do not accept the code again.
  abbrev pub Accepted : Bytes → Text → List (Option ℕ) → TotpService → TotpService → Type 0
  Accepted secret code candidates s s' =
      (counter : ℕ) × Memᴰ (some counter) candidates
      × (fits digest secret code counter ≡ ok true)
      × (s.next_counter ≤ counter)
      × (s' ≡ advance counter s)
      × (try_candidates digest is_space is_digit secret code true candidates s' ≡ (ok false, s'))

  not_accepted :
      {s s' : TotpService} {e : Error}
      → ◌≡◌ {A = Result Bool × TotpService} (err e, s) (ok true, s')
      → ⊥
  not_accepted h = cc

  refused :
      {s s' : TotpService} → ◌≡◌ {A = Result Bool × TotpService} (ok false, s) (ok true, s') → ⊥
  refused h = cc

  module _ (secret : Bytes) (code : Text) where
    accept-Accepted :
        (counter : ℕ) (candidates : List (Option ℕ)) (s s' : TotpService)
        → fits digest secret code counter ≡ ok true
        → accept digest is_space is_digit true counter s ≡ (ok true, s')
        → Accepted secret code (some counter ∷ candidates) s s'
    unfolding accept try_candidates
    accept-Accepted counter candidates s s' e h = elim (Bool-cases (ltb counter s.next_counter)) [
      | inl used ↦ absurd (
          refused
            (sym (ap (λ t. if t then (ok false, s) else (ok true, advance counter s)) used) ∙ h))
      | inr fresh ↦
          let made : s' ≡ advance counter s =
            ap (λ r. r.1)
              (sym h ∙ ap (λ t. if t then (ok false, s) else (ok true, advance counter s)) fresh) in
          let later : ltb counter s'.next_counter ≡ true =
            ap (λ t. ltb counter t.next_counter) made
            ∙ lt→ltb counter (counter + 1) (omega arith) in
          (
            counter,
            Memᴰ.head refl,
            e,
            not_less counter s.next_counter fresh,
            made,
            ap
                  (λ r.
                    continue (r, s')
                      (λ equal. elim equal [
                        | true ↦ accept digest is_space is_digit true counter
                        | false ↦
                            try_candidates digest is_space is_digit secret code true candidates
                      ]))
                  e
                ∙ ap (λ t. if t then (ok false, s') else (ok true, advance counter s')) later,
          )
    ]
      where
        not_less : (a b : ℕ) → ltb a b ≡ false → b ≤ a
        not_less a b p = ground arith

    try_candidates-Accepted :
        (candidates : List (Option ℕ)) (s s' : TotpService)
        → try_candidates digest is_space is_digit secret code true candidates s ≡ (ok true, s')
        → Accepted secret code candidates s s'
    unfolding try_candidates
    try_candidates-Accepted [] s s' h = absurd (refused h)
    try_candidates-Accepted (none ∷ candidates) s s' h = absurd (not_accepted h)
    try_candidates-Accepted (some counter ∷ candidates) s s' h =
        split (fits digest secret code counter) (try_candidates-Accepted candidates s s') refl h
      where
        choose : Bool → Action TotpService Bool
        choose equal = elim equal [
          | true ↦ accept digest is_space is_digit true counter
          | false ↦ try_candidates digest is_space is_digit secret code true candidates
        ]

        split :
            (r : Result Bool)
            → (try_candidates digest is_space is_digit secret code true candidates s ≡ (ok true, s')
                → Accepted secret code candidates s s')
            → fits digest secret code counter ≡ r
            → continue (r, s) choose ≡ (ok true, s')
            → Accepted secret code (some counter ∷ candidates) s s'
        split (err e) rest same g = absurd (not_accepted g)
        split (ok true) rest same g = accept-Accepted counter candidates s s' same g
        split (ok false) rest same g =
            let (c, among, fit, fresh, made, again) = rest g in
            (c, Memᴰ.tail among, fit, fresh, made, ap (λ r. continue (r, s') choose) same ∙ again)

  candidates : ℕ → List (Option ℕ)
  candidates base = step_before base ∷ some base ∷ some (base + 1) ∷ []

  near :
      (base counter : ℕ)
      → Memᴰ (some counter) (candidates base)
      → (counter ≤ base + 1) × (base ≤ counter + 1)
  unfolding candidates
  near zero counter (Memᴰ.head e) = cc
  near (suc base) counter (Memᴰ.head e) =
      let same : counter ≡ base = cc in (omega arith, omega arith)
  near base counter (Memᴰ.tail (Memᴰ.head e)) =
      let same : counter ≡ base = cc in (omega arith, omega arith)
  near base counter (Memᴰ.tail (Memᴰ.tail (Memᴰ.head e))) =
      let same : counter ≡ base + 1 = cc in (omega arith, omega arith)
  near base counter (Memᴰ.tail (Memᴰ.tail (Memᴰ.tail m))) = absurd (Memᴰ.not-nil m)

  attempt : Text → ℕ → Bytes → Bool → Action TotpService Bool
  attempt code timestamp secret well_formed = elim well_formed [
    | false ↦ give false
    | true ↦
        try_candidates digest is_space is_digit secret (strip digest is_space is_digit code) true
          (candidates (timestamp / totp_interval))
  ]

  form_of : Text → Bool
  form_of code =
      length (strip digest is_space is_digit code) == 6
      && all_digits digest is_space is_digit (strip digest is_space is_digit code)

  body : Text → ℕ → Bytes → Action TotpService Bool
  body code timestamp secret = attempt code timestamp secret (form_of code)

  -- An accepted code is the code of a counter at most one step away from the time, which is later
  -- than the counters accepted before; that counter is the last one accepted now. The same code
  -- at the same time is not accepted a second time.
  pub verify_replay :
      (code : Text) (timestamp : ℕ) (s s' : TotpService)
      → verify digest is_space is_digit code timestamp true s ≡ (ok true, s')
      → (secret : Bytes) × (counter : ℕ) × (s.secret ≡ some secret)
        × (fits digest secret (strip digest is_space is_digit code) counter ≡ ok true)
        × (counter ≤ timestamp / totp_interval + 1)
        × (timestamp / totp_interval ≤ counter + 1)
        × (s.next_counter ≤ counter)
        × (s' ≡ advance counter s)
        × (verify digest is_space is_digit code timestamp true s' ≡ (ok false, s'))
  unfolding verify body attempt form_of candidates
  verify_replay code timestamp s s' h = known s.secret refl h
    where
      Outcome : Type 0
      Outcome =
          (secret : Bytes) × (counter : ℕ) × (s.secret ≡ some secret)
          × (fits digest secret (strip digest is_space is_digit code) counter ≡ ok true)
          × (counter ≤ timestamp / totp_interval + 1)
          × (timestamp / totp_interval ≤ counter + 1)
          × (s.next_counter ≤ counter)
          × (s' ≡ advance counter s)
          × (verify digest is_space is_digit code timestamp true s' ≡ (ok false, s'))

      checked :
          (secret : Bytes) (well_formed : Bool)
          → s.secret ≡ some secret
          → form_of code ≡ well_formed
          → attempt code timestamp secret well_formed s ≡ (ok true, s')
          → Outcome
      checked secret false own form g = absurd (refused g)
      checked secret true own form g =
          let (counter, among, fit, fresh, made, again) =
            try_candidates-Accepted secret (strip digest is_space is_digit code)
              (candidates (timestamp / totp_interval)) s s' g in
          let (early, late) = near (timestamp / totp_interval) counter among in
          (
            secret,
            counter,
            own,
            fit,
            early,
            late,
            fresh,
            made,
            ap (λ o. continue (secret_of o, s') (body code timestamp))
                  (ap (λ t. t.secret) made ∙ own)
                ∙ ap (λ t. attempt code timestamp secret t s') form
                ∙ again,
          )

      known :
          (o : Option Bytes)
          → s.secret ≡ o
          → continue (secret_of o, s) (body code timestamp) ≡ (ok true, s')
          → Outcome
      known none own g = absurd (not_accepted g)
      known (some secret) own g = checked secret (form_of code) own refl g
