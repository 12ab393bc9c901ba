-- ===== src/DoubleRatchet/Deliver.antt =====
-- A message that one side encrypts the other decrypts, also where up to 1000 messages of the same
-- chain before it have not arrived.
use ultimate_enigma.Prelude.{
  ℕ, zero, suc, ◌+◌, ◌-◌, ◌≤◌, ◌≡◌, refl, ap, ◌∙◌, List, [], ◌∷◌, Bool, true, Option, none, some,
  ok, Error, require, leb, le→leb, arith, false,
}
use ultimate_enigma.Action.{Action, continue, after, after_lift, lift, get, put, give, ◌>>=◌, ◌>>◌}
use ultimate_enigma.Bytes.{Bytes, same_bytes, same_bytes_refl}
use ultimate_enigma.Dict.{lookup, remove, remove_absent}
use ultimate_enigma.DoubleRatchet.{
  Primitives, RatchetState, KeyName, key_names, attribute, pop_skipped, max_skip_distance,
}
use ultimate_enigma.DoubleRatchet.Handshake.{dh_ratchet_step}
use ultimate_enigma.DoubleRatchet.Messages.{
  skip_loop, skip_recv_chain, decrypt_current, decrypt_numbered, public_bytes,
}
use ultimate_enigma.DoubleRatchet.Payload.{decrypt_with_key}
use ultimate_enigma.DoubleRatchet.Store.{AreQueued, store_skipped_key-ok}

module _ (P : Primitives) where
  open P use {public_key, from_public_bytes, digest, aead}

  -- The chain key some steps on.
  abbrev pub advance : ℕ → Bytes → Bytes
  advance zero ck = ck
  advance (suc steps) ck = digest (advance steps ck) (2 ∷ [])

  pub advance_step :
      (steps : ℕ) (ck : Bytes) → advance steps (digest ck (2 ∷ [])) ≡ advance (suc steps) ck
  advance_step zero ck = refl
  advance_step (suc steps) ck = ap (λ k. digest k (2 ∷ [])) (advance_step steps ck)

  -- The state at another place of its receiving chain, with another store.
  abbrev pub moved : Bytes → ℕ → List (KeyName × Bytes) → List KeyName → RatchetState → RatchetState
  moved ck number keys order s = record s {
    recv_chain_key = some ck;
    recv_msg_num = number;
    skipped_keys = keys;
    skipped_key_order = order;
  }

  -- From a known place the loop steps the chain on and keeps the keys queued.
  pub skip_loop-ok :
      (pub_bytes : Bytes) (left n : ℕ) (ck : Bytes) (keys : List (KeyName × Bytes))
      (order : List KeyName) (s : RatchetState)
      → AreQueued keys order
      → (keys' : List (KeyName × Bytes)) × (order' : List KeyName) × (skip_loop P pub_bytes left
            (moved ck n keys order s)
          ≡ (ok tt, moved (advance left ck) (n + left) keys' order' s))
        × AreQueued keys' order'
  unfolding skip_loop
  skip_loop-ok pub_bytes zero n ck keys order s queued =
      (keys, order, ap (λ m. (ok tt, moved ck m keys order s)) (omega arith), queued)
  skip_loop-ok pub_bytes (suc left) n ck keys order s queued =
      let new_ck = digest ck (2 ∷ []) in
      let (keys1, order1, stored, queued1, found) =
        store_skipped_key-ok (pub_bytes, n) (digest ck (1 ∷ [])) (moved new_ck n keys order s)
          queued in
      let (keys2, order2, looped, queued2) =
        skip_loop-ok pub_bytes left (n + 1) new_ck keys1 order1 s queued1 in
      let next : Unit {0} → Action RatchetState (Unit {0}) = λ done. get >>= λ state.
      put (record state { recv_msg_num = state.recv_msg_num + 1 }) >> skip_loop P pub_bytes left in
      (
        keys2,
        order2,
        after next stored
            ∙ looped
            ∙ ap (λ k. (ok tt, moved k (n + 1 + left) keys2 order2 s)) (advance_step left ck)
            ∙ ap (λ m. (ok tt, moved (advance (suc left) ck) m keys2 order2 s)) (omega arith),
        queued2,
      )

  -- What a run of the loop makes of the store.
  abbrev pub Skips :
      Bytes
      → ℕ
      → ℕ
      → Bytes
      → List (KeyName × Bytes)
      → List KeyName
      → List (KeyName × Bytes)
      → List KeyName
      → RatchetState
      → Type 0
  Skips remote n k ck keys order keys' order' s =
      skip_loop P remote k (moved ck n keys order s)
      ≡ (ok tt, moved (advance k ck) (n + k) keys' order' s)

  decrypt_current-after :
      (remote header sealed ck : Bytes) (n k : ℕ) (keys : List (KeyName × Bytes))
      (order : List KeyName) (keys' : List (KeyName × Bytes)) (order' : List KeyName)
      (s : RatchetState)
      → Skips remote n k ck keys order keys' order' s
      → k ≤ max_skip_distance
      → decrypt_current P remote (n + k) header sealed (moved ck n keys order s) ≡ (
        decrypt_with_key aead (digest (advance k ck) (1 ∷ [])) sealed header,
        moved (advance (suc k) ck) (n + k + 1) keys' order' s,
      )
  unfolding decrypt_current
  decrypt_current-after remote header sealed ck n k keys order keys' order' s looped near =
      let size : n + k - n ≡ k = omega arith in
      let far = Error.value_error "Skip distance exceeds maximum" in
      let last : Unit {0} → Action RatchetState Bytes = λ done. get >>= λ state.
      lift (attribute state.recv_chain_key) >>= λ key.
      put (record state {
        recv_chain_key = some (digest key (2 ∷ []));
        recv_msg_num = state.recv_msg_num + 1;
      })
      >> lift (decrypt_with_key aead (digest key (1 ∷ [])) sealed header) in
      let next : Unit {0} → Action RatchetState Bytes =
        λ done. skip_loop P remote (n + k - n) >>= last in
      after_lift next (
        ap (λ d. require (leb d max_skip_distance) far) size
        ∙ ap (λ t. require t far) (le→leb k max_skip_distance near))
      ∙ ap (λ d. continue (skip_loop P remote d (moved ck n keys order s)) last) size
      ∙ after last looped

  -- The state of a receiver that knows its sender.
  abbrev pub from_remote : Bytes → RatchetState → RatchetState
  from_remote remote s = record s { dh_pub_remote = some remote }

  -- What follows the look-up of a skipped key.
  abbrev pub after_pop : Bytes → ℕ → Bytes → Bytes → Option Bytes → Action RatchetState Bytes
  after_pop remote n header sealed none = decrypt_current P remote n header sealed
  after_pop remote n header sealed (some key) = lift (decrypt_with_key aead key sealed header)

  -- A message of the known sender: no ratchet step.
  pub decrypt_numbered-known :
      (generated remote header sealed : Bytes) (n prev : ℕ) (s : RatchetState)
      → from_public_bytes remote ≡ ok remote
      → decrypt_numbered P generated remote n prev header sealed (from_remote remote s)
        ≡ after_pop remote n header sealed (lookup key_names (remote, n) s.skipped_keys) (
            from_remote remote
              (record s { skipped_keys = remove key_names (remote, n) s.skipped_keys }))
  unfolding decrypt_numbered pop_skipped
  decrypt_numbered-known generated remote header sealed n prev s loads =
      let rest : Unit {0} → Action RatchetState Bytes = λ done.
        pop_skipped (remote, n) >>= λ skip_key. elim skip_key [
          | some key ↦ lift (decrypt_with_key aead key sealed header)
          | none ↦ decrypt_current P remote n header sealed
        ] in
      let turn : Bool → Action RatchetState (Unit {0}) = λ same. elim same [
        | true ↦ give tt
        | false ↦ skip_recv_chain P remote prev >> dh_ratchet_step P generated remote
      ] in
      let next : Bytes → Action RatchetState Bytes = λ remote_pub. get >>= λ before.
      elim (same_bytes remote (public_bytes P before.dh_pub_remote)) [
        | true ↦ give tt
        | false ↦
            skip_recv_chain P (public_bytes P before.dh_pub_remote) prev
            >> dh_ratchet_step P generated remote_pub
      ]
      >>= rest in
      after_lift next loads
      ∙ ap (λ t. continue (turn t (from_remote remote s)) rest) (same_bytes_refl remote)

  -- A message for which no key is kept, where the loop is known.
  pub decrypt_numbered-after :
      (generated remote header sealed ck : Bytes) (n k prev : ℕ) (keys : List (KeyName × Bytes))
      (order : List KeyName) (keys' : List (KeyName × Bytes)) (order' : List KeyName)
      (s : RatchetState)
      → from_public_bytes remote ≡ ok remote
      → lookup key_names (remote, n + k) keys ≡ none
      → Skips remote n k ck keys order keys' order' (from_remote remote s)
      → k ≤ max_skip_distance
      → decrypt_numbered P generated remote
          (n + k)
          prev
          header
          sealed
          (from_remote remote (moved ck n keys order s))
        ≡ (
          decrypt_with_key aead (digest (advance k ck) (1 ∷ [])) sealed header,
          from_remote remote (moved (advance (suc k) ck) (n + k + 1) keys' order' s),
        )
  decrypt_numbered-after generated remote header sealed ck n k prev keys order keys' order' s loads
        absent looped near =
      decrypt_numbered-known generated remote header sealed (n + k) prev (moved ck n keys order s)
        loads
      ∙ ap
          (λ found.
            after_pop remote (n + k) header sealed found
              (from_remote remote (moved ck n (remove key_names (remote, n + k) keys) order s)))
          absent
      ∙ ap
          (λ left.
            decrypt_current P remote (n + k) header sealed
              (from_remote remote (moved ck n left order s)))
          (remove_absent key_names (remote, n + k) keys absent)
      ∙ decrypt_current-after remote header sealed ck n k keys order keys' order'
          (from_remote remote s) looped near
