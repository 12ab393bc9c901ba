-- ===== src/RatchetService/Stored.antt =====
-- What a write puts into the row of a friend, and that it is what is loaded again.
use ultimate_enigma.Prelude.{
  ℕ, suc, ◌+◌, ◌≤◌, ◌≡◌, refl, sym, ap, ◌∙◌, subst, List, [], ◌∷◌, ◌++◌, length, take, drop, Bool,
  true, false, ◌||◌, Bool-cases, inl, inr, leb, le→leb, if◌then◌else◌, Option, none, some, Result,
  ok, err, Error, require, ◌>>=◌, ◌>>◌, All, take-append, drop-append, length-append, arith,
}
use ultimate_enigma.Prelude
use ultimate_enigma.Bytes.{Bytes, same_bytes, same_bytes_comm, same_bytes_sound}
use ultimate_enigma.Utf8
use ultimate_enigma.Utf8.{Text}
use ultimate_enigma.Utf8.Laws.{decode-encode}
use ultimate_enigma.DoubleRatchet.{Primitives, RatchetState}
use ultimate_enigma.DoubleRatchet.Serialize.{Serialized, serialize}
use ultimate_enigma.DoubleRatchet.Restore.{Storable, deserialize-serialize}
use ultimate_enigma.RatchetService.{
  RatchetService, Storage, update_row, stored_blob, starts_with_brace, as_load_error,
  as_service_error, key_or_refuse, encrypt_ratchet_blob, open_blob, decrypt_ratchet_blob,
  get_ratchet_state, save_ratchet_state,
}

-- What the service relies on of the packages.
pub record Lawful (P : Primitives) (Z : Storage) : Type 0 where
  pub loads-dumps : (stored : Serialized) → Z.loads (Z.dumps stored) ≡ ok stored
  pub b64decode-b64encode : (bytes : Bytes) → Z.b64decode (Z.b64encode bytes) ≡ ok bytes
  pub b64encode_alphabet : (bytes : Bytes) → starts_with_brace (Z.b64encode bytes) ≡ false
  pub opens :
      (key nonce plaintext ciphertext : Bytes)
      → Z.aesgcm.seal key nonce plaintext none ≡ ok ciphertext
      → (Z.aesgcm.open_sealed key nonce ciphertext none ≡ ok plaintext) × (16 ≤ length ciphertext)
  pub public_keys : (key : Bytes) → length key ≡ 32 → P.from_public_bytes key ≡ ok key
  pub private_keys : (key : Bytes) → length key ≡ 32 → Z.from_private_bytes key ≡ ok key

abbrev pub has_row : Text → List (Text × Option Text) → Bool
has_row name [] = false
has_row name ((other, value) ∷ rows) = same_bytes other name || has_row name rows

abbrev first_blob : Option Text → Result Text
first_blob value = elim value [ none ↦ err Error.ratchet_not_found_error | some blob ↦ ok blob ]

pub stored_blob-update_row :
    (name blob : Text) (rows : List (Text × Option Text))
    → has_row name rows ≡ true
    → stored_blob name (update_row name (some blob) rows) ≡ ok blob
unfolding stored_blob update_row
stored_blob-update_row name blob [] h = cc
stored_blob-update_row name blob ((other, value) ∷ rows) h =
    elim (Bool-cases (same_bytes other name)) [
      | inl hit ↦ rw hit
      | inr miss ↦
          rw miss (
            stored_blob-update_row name blob rows (sym (ap (λ t. t || has_row name rows) miss) ∙ h))
    ]

pub stored_blob-update_other :
    (name other : Text) (value : Option Text) (rows : List (Text × Option Text))
    → same_bytes other name ≡ false
    → stored_blob name (update_row other value rows) ≡ stored_blob name rows
unfolding stored_blob update_row
stored_blob-update_other name other value [] h = refl
stored_blob-update_other name other value ((third, old) ∷ rows) h =
    elim (Bool-cases (same_bytes third name)) [
      | inr miss ↦ rw miss (stored_blob-update_other name other value rows h)
      | inl hit ↦
          let apart : same_bytes third other ≡ false =
            ap (λ t. same_bytes t other) (same_bytes_sound third name hit)
            ∙ same_bytes_comm name other
            ∙ h in
          rw (hit, apart)
    ]

pub has_row-update_row :
    (name other : Text) (value : Option Text) (rows : List (Text × Option Text))
    → has_row name (update_row other value rows) ≡ has_row name rows
unfolding update_row
has_row-update_row name other value [] = refl
has_row-update_row name other value ((third, old) ∷ rows) =
    ap (λ t. same_bytes third name || t) (has_row-update_row name other value rows)

-- What is loaded after a state was written.
abbrev pub restored : RatchetState → RatchetState
restored state = record state { skipped_key_order = [] }

module _ (P : Primitives) (Z : Storage) (accepts : Text → Bool) (laws : Lawful P Z) where
  open Z use {dumps, loads, b64encode, b64decode, aesgcm, from_private_bytes}

  -- The state is written: the database accepts the row, and AES-GCM the text.
  pub record Writable (key nonce : Bytes) (friend_name : Text) (state : RatchetState) : Type 0 where
    pub accepted : accepts friend_name ≡ true
    pub nonce_length : length nonce ≡ 12
    pub plaintext : Bytes
    pub encoded : Utf8.encode (dumps (serialize state)) ≡ ok plaintext
    pub ciphertext : Bytes
    pub sealed : aesgcm.seal key nonce plaintext none ≡ ok ciphertext
    pub storable : Storable state

  module _ (key nonce : Bytes) (friend_name : Text) (state : RatchetState)
      (w : Writable key nonce friend_name state) where
    abbrev pub blob : Text
    blob = b64encode (nonce ++ w.ciphertext)

    -- The state of the service after the write.
    abbrev pub written : RatchetService → RatchetService
    written s = record s { rows = update_row friend_name (some blob) s.rows }

    open_blob-sealed : open_blob P Z key blob ≡ ok (dumps (serialize state))
    unfolding open_blob
    open_blob-sealed =
        let (opened, long) = laws.opens key nonce w.plaintext w.ciphertext w.sealed in
        let whole = nonce ++ w.ciphertext in
        Prelude.then _ (laws.b64decode-b64encode whole)
        ∙ Prelude.then _ (
            ap (λ t. require t (Error.value_error "Encrypted blob too short"))
              (le→leb 28 (length whole)
                (omega (arith, length-append nonce w.ciphertext, w.nonce_length))))
        ∙ ap (λ n. aesgcm.open_sealed key n (drop 12 whole) none >>= Utf8.decode)
            (take-append nonce w.ciphertext 12 (sym w.nonce_length))
        ∙ ap (λ c. aesgcm.open_sealed key nonce c none >>= Utf8.decode)
            (drop-append nonce w.ciphertext 12 (sym w.nonce_length))
        ∙ Prelude.then Utf8.decode opened
        ∙ decode-encode (dumps (serialize state)) w.plaintext w.encoded

    decrypt_ratchet_blob-sealed :
        decrypt_ratchet_blob P Z (some key) blob ≡ ok (dumps (serialize state))
    unfolding decrypt_ratchet_blob
    decrypt_ratchet_blob-sealed =
        ap (λ t. if t then ok blob else as_service_error (open_blob P Z key blob))
          (laws.b64encode_alphabet (nonce ++ w.ciphertext))
        ∙ ap as_service_error open_blob-sealed

    pub save_ratchet_state-written :
        (s : RatchetService)
        → s.storage_key ≡ some key
        → save_ratchet_state P Z accepts nonce friend_name state s ≡ (ok tt, written s)
    unfolding save_ratchet_state encrypt_ratchet_blob
    save_ratchet_state-written s e =
        ap (λ r. saving r (accepts friend_name))
          (Prelude.then _ (ap key_or_refuse e) ∙ Prelude.then _ w.encoded ∙ Prelude.then _ w.sealed)
        ∙ ap (saving (ok blob)) w.accepted
      where
        saving : Result Text → Bool → Result (Unit {0}) × RatchetService
        saving r t = elim r [
          | err x ↦ (err Error.ratchet_service_error, s)
          | ok sealed ↦ elim t [
            | false ↦ (err Error.ratchet_service_error, s)
            | true ↦ (ok tt, record s { rows = update_row friend_name (some sealed) s.rows })
          ]
        ]

    -- What is loaded where the blob is in the row.
    pub get_ratchet_state-written :
        (s : RatchetService)
        → s.storage_key ≡ some key
        → stored_blob friend_name s.rows ≡ ok blob
        → get_ratchet_state P Z friend_name s ≡ ok (restored state)
    unfolding get_ratchet_state
    get_ratchet_state-written s e found = ap as_load_error (
        Prelude.then _ found
        ∙ Prelude.then _ (ap (λ k. decrypt_ratchet_blob P Z k blob) e ∙ decrypt_ratchet_blob-sealed)
        ∙ Prelude.then _ (laws.loads-dumps (serialize state))
        ∙ deserialize-serialize P from_private_bytes state w.storable laws.public_keys
            laws.private_keys)
