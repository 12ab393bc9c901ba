-- ===== src/DoubleRatchet/Skipped.antt =====
-- The loop of services/double_ratchet.py that skips messages, in a store that has room: each key that
-- it passes is found afterwards.
use ultimate_enigma.Prelude.{
  ℕ, zero, suc, ◌+◌, ◌≤◌, ◌<◌, ◌≡◌, refl, ap, ◌∙◌, List, [], ◌∷◌, ◌++◌, length, false, some, ok,
  leb, arith,
}
use ultimate_enigma.Action.{Action, continue, after, get, put, ◌>>=◌, ◌>>◌}
use ultimate_enigma.Bytes.{Bytes}
use ultimate_enigma.Dict.{lookup, insert, lookup-insert, lookup-insert_other, length-insert}
use ultimate_enigma.DoubleRatchet.{
  Primitives, RatchetState, KeyName, key_names, make_room, store_skipped_key, max_skipped_keys,
}
use ultimate_enigma.DoubleRatchet.Deliver.{advance, advance_step, moved}
use ultimate_enigma.DoubleRatchet.Messages.{skip_loop}
use ultimate_enigma.DoubleRatchet.Store.{with_store}

-- A store that is not full keeps what it has.
store_skipped_key-room :
    (key : KeyName) (mk : Bytes) (s : RatchetState)
    → length s.skipped_keys < max_skipped_keys
    → store_skipped_key key mk s ≡ (
      ok tt,
      with_store (insert key_names key mk s.skipped_keys) (s.skipped_key_order ++ key ∷ []) s,
    )
unfolding store_skipped_key
store_skipped_key-room key mk s room =
    ap (λ t. continue (make_room t s) next) (free (length s.skipped_keys) room)
  where
    next : Unit {0} → Action RatchetState (Unit {0})
    next done = get >>= λ state. put (record state {
      skipped_keys = insert key_names key mk state.skipped_keys;
      skipped_key_order = state.skipped_key_order ++ key ∷ [];
    })

    free : (n : ℕ) → n < max_skipped_keys → leb max_skipped_keys n ≡ false
    free n h = ground arith

module _ (P : Primitives) where
  open P use {public_key, from_public_bytes, digest, aead}

  -- The keys that a loop of some turns stores.
  pub filled : Bytes → ℕ → ℕ → Bytes → List (KeyName × Bytes) → List (KeyName × Bytes)
  filled remote zero n ck keys = keys
  filled remote (suc left) n ck keys =
      filled remote left (n + 1) (digest ck (2 ∷ []))
        (insert key_names (remote, n) (digest ck (1 ∷ [])) keys)

  pub skip_loop-filled :
      (remote : Bytes) (left n : ℕ) (ck : Bytes) (keys : List (KeyName × Bytes))
      (order : List KeyName) (s : RatchetState)
      → length keys + left ≤ max_skipped_keys
      → (order' : List KeyName) × (skip_loop P remote left (moved P ck n keys order s)
          ≡ (ok tt, moved P (advance P left ck) (n + left) (filled remote left n ck keys) order' s))
  unfolding skip_loop filled
  skip_loop-filled remote zero n ck keys order s room =
      (order, ap (λ m. (ok tt, moved P ck m keys order s)) (omega arith))
  skip_loop-filled remote (suc left) n ck keys order s room =
      let new_ck = digest ck (2 ∷ []) in
      let mk = digest ck (1 ∷ []) in
      let keys1 = insert key_names (remote, n) mk keys in
      let (order2, looped) =
        skip_loop-filled remote left (n + 1) new_ck keys1 (order ++ (remote, n) ∷ []) s
          (omega (arith, length-insert key_names (remote, n) mk keys)) in
      let next : Unit {0} → Action RatchetState (Unit {0}) = λ done. get >>= λ state.
      put (record state { recv_msg_num = state.recv_msg_num + 1 }) >> skip_loop P remote left in
      (
        order2,
        after next
              (store_skipped_key-room (remote, n) mk (moved P new_ck n keys order s) (omega arith))
            ∙ looped
            ∙ ap
                (λ k. (
                  ok tt,
                  moved P k (n + 1 + left) (filled remote left (n + 1) new_ck keys1) order2 s,
                ))
                (advance_step P left ck)
            ∙ ap
                (λ m. (
                  ok tt,
                  moved P (advance P (suc left) ck) m (filled remote left (n + 1) new_ck keys1)
                      order2 s,
                ))
                (omega arith),
      )

  -- The loop leaves the keys of earlier numbers alone.
  lookup-filled_earlier :
      (remote : Bytes) (left n m : ℕ) (ck : Bytes) (keys : List (KeyName × Bytes))
      → m < n
      → lookup key_names (remote, m) (filled remote left n ck keys)
        ≡ lookup key_names (remote, m) keys
  unfolding filled
  lookup-filled_earlier remote zero n m ck keys h = refl
  lookup-filled_earlier remote (suc left) n m ck keys h =
      lookup-filled_earlier remote left (n + 1) m (digest ck (2 ∷ []))
        (insert key_names (remote, n) (digest ck (1 ∷ [])) keys) (omega arith)
      ∙ lookup-insert_other key_names (remote, m) (remote, n) (digest ck (1 ∷ [])) keys
          (λ e. absurd (omega (arith, h, ap (λ (k : KeyName). k.1) e)))

  pub lookup-filled :
      (remote : Bytes) (left n j : ℕ) (ck : Bytes) (keys : List (KeyName × Bytes))
      → j < left
      → lookup key_names (remote, n + j) (filled remote left n ck keys)
        ≡ some (digest (advance P j ck) (1 ∷ []))
  unfolding filled
  lookup-filled remote zero n j ck keys h = absurd (omega arith)
  lookup-filled remote (suc left) n zero ck keys h =
      let same : n + 0 ≡ n = omega arith in
      let mk = digest ck (1 ∷ []) in
      ap (λ m. lookup key_names (remote, m) (filled remote (suc left) n ck keys)) same
      ∙ lookup-filled_earlier remote left (n + 1) n (digest ck (2 ∷ []))
          (insert key_names (remote, n) mk keys) (omega arith)
      ∙ lookup-insert key_names (remote, n) mk keys
  lookup-filled remote (suc left) n (suc j) ck keys h =
      let shift : n + suc j ≡ n + 1 + j = omega arith in
      ap (λ m. lookup key_names (remote, m) (filled remote (suc left) n ck keys)) shift
      ∙ lookup-filled remote left (n + 1) j (digest ck (2 ∷ []))
          (insert key_names (remote, n) (digest ck (1 ∷ [])) keys) (omega arith)
      ∙ ap (λ k. some (digest k (1 ∷ []))) (advance_step P j ck)
