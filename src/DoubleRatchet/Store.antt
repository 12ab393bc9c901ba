-- ===== src/DoubleRatchet/Store.antt =====
-- The store of skipped keys: every key in it is in the queue for eviction, so that a full store
-- always has a key to evict.
use mathlib.Core.List.Memᴰ
use mathlib.Core.List.{Memᴰ}
use ultimate_enigma.Prelude.{
  ◌≤◌, ◌≡◌, ◌≢◌, ◌⊎◌, refl, sym, ap, ◌∙◌, List, [], ◌∷◌, ◌++◌, length, Bool, true, false,
  Bool-cases, inl, inr, some, ok, All, leb, leb→le, arith,
}
use ultimate_enigma.Action.{Action, after, get, put, ◌>>=◌}
use ultimate_enigma.Bytes.{Bytes}
use ultimate_enigma.Dict.{
  Keys, lookup, insert, remove, insert-Keys, lookup-insert, remove-Keys_other,
}
use ultimate_enigma.DoubleRatchet.{
  RatchetState, KeyName, key_names, evict, make_room, store_skipped_key, max_skipped_keys,
}

abbrev pub AreQueued : List (KeyName × Bytes) → List KeyName → Type 0
AreQueued keys order = Keys key_names (λ k. Memᴰ k order) keys

abbrev pub Tracked : RatchetState → Type 0
Tracked s = AreQueued s.skipped_keys s.skipped_key_order

-- The state with another store.
abbrev pub with_store : List (KeyName × Bytes) → List KeyName → RatchetState → RatchetState
with_store keys order s = record s { skipped_keys = keys; skipped_key_order = order }

Mem-snoc : (k j : KeyName) (order : List KeyName) → Memᴰ k order → Memᴰ k (order ++ j ∷ [])
Mem-snoc k j [] m = absurd (Memᴰ.not-nil m)
Mem-snoc k j (i ∷ order) (Memᴰ.head e) = Memᴰ.head e
Mem-snoc k j (i ∷ order) (Memᴰ.tail m) = Memᴰ.tail (Mem-snoc k j order m)

Mem_last : (k : KeyName) (order : List KeyName) → Memᴰ k (order ++ k ∷ [])
Mem_last k [] = Memᴰ.head refl
Mem_last k (j ∷ order) = Memᴰ.tail (Mem_last k order)

AreQueued-snoc :
    (keys : List (KeyName × Bytes)) (order : List KeyName) (j : KeyName)
    → AreQueued keys order
    → AreQueued keys (order ++ j ∷ [])
AreQueued-snoc [] order j h = tt
AreQueued-snoc ((k, v) ∷ keys) order j h = (Mem-snoc k j order h.0, AreQueued-snoc keys order j h.1)

AreQueued-evict :
    (keys : List (KeyName × Bytes)) (oldest : KeyName) (order : List KeyName)
    → AreQueued keys (oldest ∷ order)
    → All (λ e. e.0 ≢ oldest → Memᴰ e.0 order) keys
AreQueued-evict [] oldest order h = tt
AreQueued-evict ((k, v) ∷ keys) oldest order h = (later h.0, AreQueued-evict keys oldest order h.1)
  where
    later : Memᴰ k (oldest ∷ order) → k ≢ oldest → Memᴰ k order
    later (Memᴰ.head e) ne = absurd (ne e)
    later (Memᴰ.tail m) ne = m

evict-ok :
    (s : RatchetState)
    → Tracked s
    → 1 ≤ length s.skipped_keys
    → (keys : List (KeyName × Bytes)) × (order : List KeyName) × (evict s
        ≡ (ok tt, with_store keys order s))
      × AreQueued keys order
unfolding evict
evict-ok s tracked filled = from s.skipped_keys s.skipped_key_order tracked filled refl
  where
    from :
        (keys : List (KeyName × Bytes)) (order : List KeyName)
        → AreQueued keys order
        → 1 ≤ length keys
        → with_store keys order s ≡ s
        → (keys' : List (KeyName × Bytes)) × (order' : List KeyName) × (evict s
            ≡ (ok tt, with_store keys' order' s))
          × AreQueued keys' order'
    from [] order queued filled e = absurd (omega arith)
    from ((k, v) ∷ keys) [] queued filled e = absurd (Memᴰ.not-nil queued.0)
    from ((k, v) ∷ keys) (oldest ∷ order) queued filled e = (
      remove key_names oldest ((k, v) ∷ keys),
      order,
      sym (ap evict e),
      remove-Keys_other key_names (λ j. Memᴰ j order) oldest ((k, v) ∷ keys)
          (AreQueued-evict ((k, v) ∷ keys) oldest order queued),
    )

-- A key is stored, for any state whose keys are all queued, and then they still are.
pub store_skipped_key-ok :
    (key : KeyName) (mk : Bytes) (s : RatchetState)
    → Tracked s
    → (keys : List (KeyName × Bytes)) × (order : List KeyName) × (store_skipped_key key mk s
        ≡ (ok tt, with_store keys order s))
      × AreQueued keys order
      × (lookup key_names key keys ≡ some mk)
unfolding store_skipped_key
store_skipped_key-ok key mk s tracked =
    let (keys, order, made, queued) =
      room (Bool-cases (leb max_skipped_keys (length s.skipped_keys))) in
    let next : Unit {0} → Action RatchetState (Unit {0}) = λ done. get >>= λ state.
    put (record state {
      skipped_keys = insert key_names key mk state.skipped_keys;
      skipped_key_order = state.skipped_key_order ++ key ∷ [];
    }) in
    (
      insert key_names key mk keys,
      order ++ key ∷ [],
      after next made,
      insert-Keys key_names (λ j. Memᴰ j (order ++ key ∷ [])) key mk keys (Mem_last key order)
          (AreQueued-snoc keys order key queued),
      lookup-insert key_names key mk keys,
    )
  where
    full : Bool
    full = leb max_skipped_keys (length s.skipped_keys)

    room :
        (full ≡ true) ⊎ (full ≡ false)
        → (keys : List (KeyName × Bytes)) × (order : List KeyName) × (make_room full s
            ≡ (ok tt, with_store keys order s))
          × AreQueued keys order
    room (inl hit) =
        let (keys, order, made, queued) =
          evict-ok s tracked (omega (arith, leb→le max_skipped_keys (length s.skipped_keys) hit)) in
        (keys, order, ap (λ t. make_room t s) hit ∙ made, queued)
    room (inr miss) = (s.skipped_keys, s.skipped_key_order, ap (λ t. make_room t s) miss, tracked)
