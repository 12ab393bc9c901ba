-- ===== src/RatchetService/Buffer.antt =====
-- What the buffer of unwritten states does to the messages that follow: every operation reads the
-- database, not the buffer.
use ultimate_enigma.Prelude.{
  ◌≡◌, refl, ap, ◌∙◌, List, [], ◌∷◌, Bool, Result, ok, err, Error, require,
}
use ultimate_enigma.Action.{Action, continue, give, ◌>>◌}
use ultimate_enigma.Bytes.{Bytes}
use ultimate_enigma.Utf8.{Text}
use ultimate_enigma.DoubleRatchet.{Primitives, RatchetState}
use ultimate_enigma.DoubleRatchet.Messages.{encrypt, decrypt}
use ultimate_enigma.RatchetService.{RatchetService, Storage, get_ratchet_state, mark_dirty}
use ultimate_enigma.RatchetService.Session.{
  run, mapped, value_error_as, always, encrypt_message, decrypt_message,
}

-- A call on the messages of a friend, with what it draws.
pub data MessageCall : Type 0 where
  sends : Bool → Bytes → Bytes → Text → Bytes → MessageCall
  receives : Bool → Bytes → Text → Bytes → Bytes → MessageCall

module _ (P : Primitives) (Z : Storage) (accepts : Text → Bool) where
  -- The state that a call leaves, whether it succeeds or raises.
  unfoldable pub after_call : MessageCall → RatchetService → RatchetService
  after_call (sends acquired generated nonce friend_name plaintext) s =
      (encrypt_message P Z accepts acquired generated nonce friend_name plaintext s).1
  after_call (receives acquired generated friend_name header ciphertext) s =
      (decrypt_message P Z accepts acquired generated friend_name header ciphertext s).1

  unfoldable pub after_calls : List MessageCall → RatchetService → RatchetService
  after_calls [] s = s
  after_calls (call ∷ calls) s = after_calls calls (after_call call s)

  -- What the database holds is the same.
  abbrev SameStored : RatchetService → RatchetService → Type 0
  SameStored s t = (s.rows ≡ t.rows) × (s.storage_key ≡ t.storage_key)

  get_ratchet_state-same :
      (friend_name : Text) (s t : RatchetService)
      → SameStored s t
      → get_ratchet_state P Z friend_name s ≡ get_ratchet_state P Z friend_name t
  unfolding get_ratchet_state
  get_ratchet_state-same friend_name s t (rows, key) =
      ap (λ r. get_ratchet_state P Z friend_name (record s { rows = r })) rows
      ∙ ap (λ k. get_ratchet_state P Z friend_name (record t { storage_key = k })) key

  module _ {A : Type 0} (friend_name : Text) (step : RatchetState → Result (A × RatchetState)) where
    abbrev buffered : Result (A × RatchetState) → Action RatchetService A
    buffered stepped s =
        continue (stepped, s) (λ p. mark_dirty P Z accepts friend_name p.1 >> give p.0)

    abbrev loading : Result RatchetState → Action RatchetService A
    loading loaded s = continue (loaded, s) (λ state. buffered (step state))

    -- Both operations: the lock, the state from the database, a method of it, the buffer.
    abbrev operation : Result (Unit {0}) → Action RatchetService A
    operation locked s =
        continue (locked, s) (λ done t. loading (get_ratchet_state P Z friend_name t) t)

    buffered-stored :
        (stepped : Result (A × RatchetState)) (s : RatchetService)
        → SameStored (buffered stepped s).1 s
    unfolding mark_dirty
    buffered-stored (err e) s = (refl, refl)
    buffered-stored (ok p) s = (refl, refl)

    loading-stored :
        (loaded : Result RatchetState) (s : RatchetService) → SameStored (loading loaded s).1 s
    loading-stored (err e) s = (refl, refl)
    loading-stored (ok state) s = buffered-stored (step state) s

    operation-stored :
        (locked : Result (Unit {0})) (s : RatchetService) → SameStored (operation locked s).1 s
    operation-stored (err e) s = (refl, refl)
    operation-stored (ok done) s = loading-stored (get_ratchet_state P Z friend_name s) s

    buffered-result :
        (stepped : Result (A × RatchetState)) (s t : RatchetService)
        → (buffered stepped s).0 ≡ (buffered stepped t).0
    unfolding mark_dirty
    buffered-result (err e) s t = refl
    buffered-result (ok p) s t = refl

    loading-result :
        (loaded : Result RatchetState) (s t : RatchetService)
        → (loading loaded s).0 ≡ (loading loaded t).0
    loading-result (err e) s t = refl
    loading-result (ok state) s t = buffered-result (step state) s t

    operation-result :
        (locked : Result (Unit {0})) (s t : RatchetService)
        → SameStored s t
        → (operation locked s).0 ≡ (operation locked t).0
    operation-result (err e) s t h = refl
    operation-result (ok done) s t h =
        ap (λ loaded. (loading loaded s).0) (get_ratchet_state-same friend_name s t h)
        ∙ loading-result (get_ratchet_state P Z friend_name t) s t

  after_call-stored : (call : MessageCall) (s : RatchetService) → SameStored (after_call call s) s
  unfolding after_call encrypt_message decrypt_message
  after_call-stored (sends acquired generated nonce friend_name plaintext) s =
      operation-stored friend_name
        (λ state.
          mapped (value_error_as Error.ratchet_service_error)
            (run (encrypt P generated nonce plaintext) state))
        (require acquired Error.concurrency_error) s
  after_call-stored (receives acquired generated friend_name header ciphertext) s =
      operation-stored friend_name
        (λ state.
          mapped (always Error.ratchet_service_error)
            (run (decrypt P generated header ciphertext) state))
        (require acquired Error.concurrency_error) s

  after_calls-stored :
      (calls : List MessageCall) (s : RatchetService) → SameStored (after_calls calls s) s
  unfolding after_calls
  after_calls-stored [] s = (refl, refl)
  after_calls-stored (call ∷ calls) s =
      let later = after_calls-stored calls (after_call call s) in
      let first = after_call-stored call s in (later.0 ∙ first.0, later.1 ∙ first.1)

  -- However many messages are encrypted and decrypted, successfully or not, until the buffer is
  -- flushed, the next encryption gives what it would have given before the first of them.
  pub encrypt_message-after_calls :
      (calls : List MessageCall) (acquired : Bool) (generated nonce : Bytes) (friend_name : Text)
      (plaintext : Bytes) (s : RatchetService)
      → (encrypt_message P Z accepts acquired generated nonce friend_name plaintext
          (after_calls calls s)).0
        ≡ (encrypt_message P Z accepts acquired generated nonce friend_name plaintext s).0
  unfolding encrypt_message
  encrypt_message-after_calls calls acquired generated nonce friend_name plaintext s =
      operation-result friend_name
        (λ state.
          mapped (value_error_as Error.ratchet_service_error)
            (run (encrypt P generated nonce plaintext) state))
        (require acquired Error.concurrency_error) (after_calls calls s) s
        (after_calls-stored calls s)
