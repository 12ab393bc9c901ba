-- ===== src/RatchetService/Flush.antt =====
-- A flush of the buffer writes every state, and each is what is loaded afterwards.
use ultimate_enigma.Prelude.{
  ℕ, ◌+◌, ◌≡◌, refl, ap, ◌∙◌, List, [], ◌∷◌, length, Bool, true, false, some, Result, ok, err, All,
  arith,
}
use ultimate_enigma.Bytes.{Bytes, same_bytes, same_bytes_comm}
use ultimate_enigma.Utf8.{Text}
use ultimate_enigma.DoubleRatchet.{Primitives, RatchetState}
use ultimate_enigma.DoubleRatchet.Restore.{Distinct}
use ultimate_enigma.RatchetService.{
  RatchetService, Storage, friend_names, stored_blob, get_ratchet_state, flush_each,
  flush_dirty_states, update_dirty,
}
use ultimate_enigma.RatchetService.Stored.{
  Lawful, has_row, restored, Writable, blob, written, stored_blob-update_row,
  stored_blob-update_other, has_row-update_row, save_ratchet_state-written,
  get_ratchet_state-written,
}

module _ (P : Primitives) (Z : Storage) (accepts : Text → Bool) (laws : Lawful P Z) where
  -- A state of the buffer that can be written, and the row of its friend.
  abbrev pub Flushable : (Text → Bytes) → Bytes → RatchetService → Text × RatchetState → Type 0
  Flushable nonces key s e =
      Writable P Z accepts laws key (nonces e.0) e.0 e.1 × (has_row e.0 s.rows ≡ true)

  abbrev pub Loads : RatchetService → Text × RatchetState → Type 0
  Loads s e = get_ratchet_state P Z e.0 s ≡ ok (restored e.1)

  Flushable-kept :
      (nonces : Text → Bytes) (key : Bytes) (s t : RatchetService)
      (entries : List (Text × RatchetState))
      → ((name : Text) → has_row name t.rows ≡ has_row name s.rows)
      → All (Flushable nonces key s) entries
      → All (Flushable nonces key t) entries
  Flushable-kept nonces key s t [] same h = tt
  Flushable-kept nonces key s t (e ∷ entries) same h =
      ((h.0.0, same e.0 ∙ h.0.1), Flushable-kept nonces key s t entries same h.1)

  -- The loop writes every state, and the rows of the other friends stay as they were.
  flush_each-Loads :
      (nonces : Text → Bytes) (key : Bytes) (entries : List (Text × RatchetState)) (count : ℕ)
      (s : RatchetService)
      → s.storage_key ≡ some key
      → Distinct friend_names entries
      → All (Flushable nonces key s) entries
      → (s' : RatchetService) × (flush_each P Z accepts nonces entries count [] s
          ≡ (ok (count + length entries), s'))
        × All (Loads s') entries
        × (s'.dirty_states ≡ s.dirty_states)
        × (s'.storage_key ≡ s.storage_key)
        × ((name : Text)
            → All (λ e. same_bytes e.0 name ≡ false) entries
            → stored_blob name s'.rows ≡ stored_blob name s.rows)
  unfolding flush_each update_dirty friend_names
  flush_each-Loads nonces key [] count s loaded distinct h =
      (s, ap (λ n. (ok n, s)) (omega arith), tt, refl, refl, λ name absent. refl)
  flush_each-Loads nonces key ((name, state) ∷ entries) count s loaded distinct h =
      let w = h.0.0 in
      let s1 = written P Z accepts laws key (nonces name) name state w s in
      let (s', run, loads', dirty, key', others) =
        flush_each-Loads nonces key entries (count + 1) s1 loaded distinct.1 (
          Flushable-kept nonces key s s1 entries
            (λ n.
              has_row-update_row n name
                (some (blob P Z accepts laws key (nonces name) name state w)) s.rows)
            h.1) in
      (
        s',
        ap turn
              (save_ratchet_state-written P Z accepts laws key (nonces name) name state w s loaded)
            ∙ run
            ∙ ap (λ n. (ok n, s')) (omega arith),
        (
          get_ratchet_state-written P Z accepts laws key (nonces name) name state w s'
              (key' ∙ loaded)
              (others name (swapped entries distinct.0)
                ∙ stored_blob-update_row name (blob P Z accepts laws key (nonces name) name state w)
                    s.rows h.0.1),
          loads',
        ),
        dirty,
        key',
        λ other absent.
            others other absent.1
            ∙ stored_blob-update_other other name
                (some (blob P Z accepts laws key (nonces name) name state w)) s.rows absent.0,
      )
    where
      turn : Result (Unit {0}) × RatchetService → Result ℕ × RatchetService
      turn saved =
          let next = flush_each P Z accepts nonces entries (count + 1) [] saved.1 in
          let failed = flush_each P Z accepts nonces entries count ((name, state) ∷ []) saved.1 in
          elim saved.0 [ ok done ↦ next | err e ↦ failed ]

      swapped :
          (rest : List (Text × RatchetState))
          → All (λ e. same_bytes name e.0 ≡ false) rest
          → All (λ e. same_bytes e.0 name ≡ false) rest
      swapped [] a = tt
      swapped (e ∷ rest) a = (same_bytes_comm e.0 name ∙ a.0, swapped rest a.1)

  -- A flush of states that can be written, of different friends with a row each, writes them all and
  -- empties the buffer: each of them is what is loaded afterwards, but for the order of eviction.
  pub flush_dirty_states-Loads :
      (nonces : Text → Bytes) (key : Bytes) (s : RatchetService)
      → s.storage_key ≡ some key
      → Distinct friend_names s.dirty_states
      → All (Flushable nonces key s) s.dirty_states
      → (s' : RatchetService) × (flush_dirty_states P Z accepts nonces s
          ≡ (ok (length s.dirty_states), s'))
        × All (Loads s') s.dirty_states
        × (s'.dirty_states ≡ [])
  unfolding flush_dirty_states
  flush_dirty_states-Loads nonces key s loaded distinct h =
      let (s', run, loads', dirty, key', others) =
        flush_each-Loads nonces key s.dirty_states 0
          (record s { dirty_states = []; flush_timer = false }) loaded distinct
          (Flushable-kept nonces key s (record s { dirty_states = []; flush_timer = false })
            s.dirty_states (λ n. refl) h) in
      (s', run ∙ ap (λ n. (ok n, s')) (omega arith), loads', dirty)
