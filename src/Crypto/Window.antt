-- ===== src/Crypto/Window.antt =====
-- The window of crypto.py: the loop over the candidates keeps the first key that opens the
-- ciphertext, and no other candidate breaks it off.
use ultimate_enigma.Prelude.{
  ℕ, ◌+◌, ◌-◌, ◌*◌, ◌/◌, ◌^◌, ◌<◌, ◌≤◌, ◌≡◌, refl, ap, ◌∙◌, List, [], ◌∷◌, ◌++◌, length, take, drop,
  map, Bool, true, false, leb, le→leb, Bool-cases, ◌⊎◌, inl, inr, sym, subst, Option, none, some,
  Result, ok, err, Error, require, ◌>>=◌, ◌>>◌, take-append, drop-append, length-append, arith,
  if◌then◌else◌,
}
use ultimate_enigma.Prelude
use ultimate_enigma.Bytes.{Bytes, be_bytes}
use ultimate_enigma.Bytes.Laws.{pack_be_lem}
use ultimate_enigma.Crypto.{
  Primitives, nonce_size, time_step, time_key_info, derive_time_key, derive_msg_key,
  aes_gcm_encrypt, aes_gcm_decrypt,
}
use ultimate_enigma.Crypto.Parse.{
  before, timestamps, is_refusal, after, next_if, try_candidate, try_all, found_or_refuse,
  decrypt_with_window,
}

-- What the package `cryptography` documents of its AES-GCM, HKDF and SHA-256.
pub record Lawful (P : Primitives) : Type 0 where
  pub length-sha256 : (content : Bytes) → length (P.sha256 content) ≡ 32
  pub length-derive : (info key : Bytes) → length (P.derive info key) ≡ 32
  pub seal-open_sealed :
      (key nonce content aad : Bytes)
      → length key ≡ 32
      → length nonce ≡ nonce_size
      → length content < 2 ^ 31
      → length aad < 2 ^ 31
      → (ciphertext : Bytes) × (P.aesgcm.seal key nonce content (some aad) ≡ ok ciphertext)
        × (16 ≤ length ciphertext)
        × (P.aesgcm.open_sealed key nonce ciphertext (some aad) ≡ ok content)
  pub open_sealed-refusal :
      (key nonce ciphertext aad : Bytes) (e : Error)
      → P.aesgcm.open_sealed key nonce ciphertext (some aad) ≡ err e
      → is_refusal e ≡ true

-- A success or what the loop catches.
abbrev Caught : Result Bytes → Type 0
Caught r = ((inner : Bytes) × (r ≡ ok inner)) ⊎ ((e : Error) × (r ≡ err e) × (is_refusal e ≡ true))

Caught-of : (r : Result Bytes) → ((e : Error) → r ≡ err e → is_refusal e ≡ true) → Caught r
Caught-of (ok inner) refusals = inl (inner, refl)
Caught-of (err e) refusals = inr (e, refl, refusals e refl)

abbrev AllFit : List ℕ → Type 0
AllFit [] = Unit
AllFit (t ∷ ts) = (t < 256 ^ 8) × AllFit ts

-- The candidates of a time that is not within a minute of the bounds.
timestamps_lem :
    (outer_ts now : ℕ)
    → 60 ≤ now
    → timestamps outer_ts now
      ≡ map some (outer_ts ∷ (now - 60) ∷ (now - 30) ∷ now ∷ (now + 30) ∷ (now + 60) ∷ [])
timestamps_lem outer_ts now early =
    ap
      (λ t.
        some outer_ts
        ∷ (if t then some (now - 60) else none)
        ∷ before now 30
        ∷ some now
        ∷ some (now + 30)
        ∷ some (now + 60)
        ∷ [])
      (le→leb 60 now early)
    ∙ ap
        (λ t.
          some outer_ts
          ∷ some (now - 60)
          ∷ (if t then some (now - 30) else none)
          ∷ some now
          ∷ some (now + 30)
          ∷ some (now + 60)
          ∷ [])
        (le→leb 30 now (omega arith))

module _ (P : Primitives) (laws : Lawful P) where
  pub time_key : Bytes → ℕ → Bytes
  time_key shared_secret t =
      P.derive (time_key_info ++ be_bytes 8 (t / time_step * time_step)) shared_secret

  pub derive_time_key_lem :
      (shared_secret : Bytes) (t : ℕ)
      → t < 256 ^ 8
      → derive_time_key P shared_secret t ≡ ok (time_key shared_secret t)
  unfolding derive_time_key time_key
  derive_time_key_lem shared_secret t fits =
      Prelude.then _ (pack_be_lem 8 (t / time_step * time_step) (omega arith))

  -- What is sealed is opened, behind its nonce.
  pub aes_gcm_encrypt-decrypt :
      (nonce key content aad : Bytes)
      → length nonce ≡ nonce_size
      → length content < 2 ^ 31
      → length aad < 2 ^ 31
      → (ciphertext : Bytes) × (aes_gcm_encrypt P nonce key content aad ≡ ok ciphertext)
        × (aes_gcm_decrypt P key ciphertext aad ≡ ok content)
  unfolding aes_gcm_encrypt aes_gcm_decrypt
  aes_gcm_encrypt-decrypt nonce key content aad twelve small small_aad =
      let msg_key = derive_msg_key P key nonce in
      let (ct, sealed, tagged, opened) =
        laws.seal-open_sealed msg_key nonce content aad (laws.length-derive _ key) twelve small
          small_aad in
      (
        nonce ++ ct,
        Prelude.then _ sealed,
        Prelude.then _ (
              ap (λ t. require t (Error.value_error "Ciphertext too short"))
                (le→leb (nonce_size + 16) (length (nonce ++ ct))
                  (omega (arith, length-append nonce ct))))
            ∙ ap
                (λ n.
                  P.aesgcm.open_sealed (derive_msg_key P key n) n (drop nonce_size (nonce ++ ct))
                    (some aad))
                (take-append nonce ct nonce_size (omega arith))
            ∙ ap (λ c. P.aesgcm.open_sealed msg_key nonce c (some aad))
                (drop-append nonce ct nonce_size (omega arith))
            ∙ opened,
      )

  aes_gcm_decrypt-Caught :
      (key ciphertext aad : Bytes) → Caught (aes_gcm_decrypt P key ciphertext aad)
  unfolding aes_gcm_decrypt
  aes_gcm_decrypt-Caught key ciphertext aad =
      let nonce = take nonce_size ciphertext in
      let body = drop nonce_size ciphertext in
      let opened = P.aesgcm.open_sealed (derive_msg_key P key nonce) nonce body (some aad) in
      let guarded : Bool → Result Bytes =
        λ t. require t (Error.value_error "Ciphertext too short") >> opened in
      elim (Bool-cases (leb (nonce_size + 16) (length ciphertext))) [
        | inl long ↦
            subst Caught (sym (ap guarded long))
              (Caught-of opened (laws.open_sealed-refusal _ nonce body aad))
        | inr short ↦ inr (_, ap guarded short, refl)
      ]

  try_candidate-Caught :
      (key ciphertext aad : Bytes) (t : ℕ)
      → t < 256 ^ 8
      → Caught (try_candidate P key ciphertext aad (some t))
  try_candidate-Caught key ciphertext aad t fits =
      subst Caught
        (sym
          (Prelude.then (λ k. aes_gcm_decrypt P k ciphertext aad) (derive_time_key_lem key t fits)))
        (aes_gcm_decrypt-Caught (time_key key t) ciphertext aad)

  -- The candidates behind the first success are tried and change nothing.
  try_all-kept :
      (key ciphertext aad inner : Bytes) (ts : List ℕ)
      → AllFit ts
      → try_all P key ciphertext aad (map some ts) (some inner) ≡ ok (some inner)
  unfolding try_all
  try_all-kept key ciphertext aad inner [] fit = refl
  try_all-kept key ciphertext aad inner (t ∷ ts) fit =
      let rest = try_all-kept key ciphertext aad inner ts fit.1 in
      let next : Option Bytes → Result (Option Bytes) =
        λ result. try_all P key ciphertext aad (map some ts) result in
      elim (try_candidate-Caught key ciphertext aad t fit.0) [
        | inl (found, e) ↦ ap (λ r. after r (some inner) next) e ∙ rest
        | inr (e, raised, caught) ↦
            ap (λ r. after r (some inner) next) raised
            ∙ ap (λ b. next_if b e (next (some inner))) caught
            ∙ rest
      ]

  -- The ciphertext that the key of the outer timestamp opens is opened, at any time that is not
  -- within a minute of the bounds.
  pub decrypt_with_window-outer :
      (key ciphertext aad inner : Bytes) (outer_ts now : ℕ)
      → outer_ts < 256 ^ 8
      → 60 ≤ now
      → now + 60 < 256 ^ 8
      → aes_gcm_decrypt P (time_key key outer_ts) ciphertext aad ≡ ok inner
      → decrypt_with_window P key ciphertext outer_ts now aad ≡ ok inner
  unfolding decrypt_with_window try_all
  decrypt_with_window-outer key ciphertext aad inner outer_ts now fits early late opened =
      let ts = (now - 60) ∷ (now - 30) ∷ now ∷ (now + 30) ∷ (now + 60) ∷ [] in
      let first : try_candidate P key ciphertext aad (some outer_ts) ≡ ok inner =
        Prelude.then _ (derive_time_key_lem key outer_ts fits) ∙ opened in
      let found : try_all P key ciphertext aad (map some (outer_ts ∷ ts)) none ≡ ok (some inner) =
        ap (λ r. after r none (λ result. try_all P key ciphertext aad (map some ts) result)) first
        ∙ try_all-kept key ciphertext aad inner ts
            (omega arith, (omega arith, (omega arith, (omega arith, (late, tt))))) in
      Prelude.then found_or_refuse
        (ap (λ c. try_all P key ciphertext aad c none) (timestamps_lem outer_ts now early) ∙ found)
