-- ===== src/RatchetService/Session.antt =====
-- services/ratchet_service.py: the start and the end of a session, and the two operations on its
-- messages. `acquired` tells whether the lock of the friend was acquired in time; `generated` and
-- `nonce` are what the ratchet draws, `blob_nonce` what the storage of a state does.
use ultimate_enigma.Prelude.{
  Bool, true, false, Option, none, some, Result, ok, err, Error, require, List, [], ◌∷◌,
}
use ultimate_enigma.Prelude
use ultimate_enigma.Action.{Action, lift, give, get, raise_as, ◌>>=◌, ◌>>◌}
use ultimate_enigma.Bytes.{Bytes}
use ultimate_enigma.Utf8.{Text}
use ultimate_enigma.DoubleRatchet.{Primitives, RatchetState, initial}
use ultimate_enigma.DoubleRatchet.Handshake.{initialize_as_alice, initialize_as_bob}
use ultimate_enigma.DoubleRatchet.Messages.{encrypt, decrypt}
use ultimate_enigma.RatchetService.{
  RatchetService, Storage, get_ratchet_state, save_ratchet_state, mark_dirty, update_row,
  stored_blob,
}

-- `except ValueError`, which catches the subclasses too.
abbrev pub value_error_as : Error → Error → Error
value_error_as other (Error.value_error text) = other
value_error_as other Error.unicode_error = other
value_error_as other Error.json_decode_error = other
value_error_as other e = e

-- Every exception but a RatchetServiceError becomes a RatchetInitError.
abbrev pub as_init_error : Error → Error
as_init_error Error.ratchet_service_error = Error.ratchet_service_error
as_init_error e = Error.ratchet_init_error

abbrev pub always : Error → Error → Error
always other e = other

-- A method of a state object that is thrown away where the method raises.
abbrev pub run {ℓ} : {A : Type ℓ} → Action RatchetState A → RatchetState → Result (A × RatchetState)
run method state =
    let (result, after) = method state in
    elim result [ ok value ↦ ok (value, after) | err e ↦ err e ]

abbrev pub mapped {ℓ} : {A : Type ℓ} → (Error → Error) → Result A → Result A
mapped other (ok value) = ok value
mapped other (err e) = err (other e)

module _ (P : Primitives) (Z : Storage) (accepts : Text → Bool) where
  open P use {from_public_bytes}
  open Z use {from_private_bytes}

  abbrev pub local_key : Option Bytes → Result (Option Bytes)
  local_key none = ok none
  local_key (some raw) = Prelude.◌>>=◌ (from_private_bytes raw) λ key. ok (some key)

  -- The two methods up to `_ensure_ratchet_capability`, of the way to initialize the new state.
  abbrev pub init_ratchet :
      (Bytes → Option Bytes → Action RatchetState (Unit {0}))
      → Bytes
      → Text
      → Bytes
      → Option Bytes
      → Action RatchetService RatchetState
  init_ratchet initialize blob_nonce friend_name remote_bytes local_dh_priv_bytes s =
      raise_as as_init_error (
        (do
          remote ← lift (from_public_bytes remote_bytes)
          local_dh_priv ← lift (local_key local_dh_priv_bytes)
          (done, state) ← lift (run (initialize remote local_dh_priv) initial)
          save_ratchet_state P Z accepts blob_nonce friend_name state
          give state)
          s)

  unfoldable pub init_ratchet_alice :
      Bytes → Bytes → Text → Bytes → Bytes → Option Bytes → Action RatchetService RatchetState
  init_ratchet_alice generated blob_nonce friend_name bob_dh_pub_bytes shared_secret =
      init_ratchet
        (λ remote local_dh_priv. initialize_as_alice P generated remote shared_secret local_dh_priv)
        blob_nonce friend_name bob_dh_pub_bytes

  unfoldable pub init_ratchet_bob :
      Bytes → Bytes → Text → Bytes → Bytes → Option Bytes → Action RatchetService RatchetState
  init_ratchet_bob generated blob_nonce friend_name alice_dh_pub_bytes shared_secret =
      init_ratchet
        (λ remote local_dh_priv. initialize_as_bob P generated remote shared_secret local_dh_priv)
        blob_nonce friend_name alice_dh_pub_bytes

  -- Whether a row of the friend had a session.
  unfoldable pub has_session : Text → List (Text × Option Text) → Bool
  has_session friend_name rows = elim (stored_blob friend_name rows) [
    | ok blob ↦ true
    | err e ↦ false
  ]

  -- The states that are yet to be written are left alone.
  unfoldable pub delete_ratchet : Text → Action RatchetService Bool
  delete_ratchet friend_name s = elim (accepts friend_name) [
    | false ↦ (err Error.ratchet_service_error, s)
    | true ↦ (
      ok (has_session friend_name s.rows),
      record s { rows = update_row friend_name none s.rows },
    )
  ]

  unfoldable pub encrypt_message :
      Bool → Bytes → Bytes → Text → Bytes → Action RatchetService (Bytes × Bytes)
  encrypt_message acquired generated nonce friend_name plaintext = do
    lift (require acquired Error.concurrency_error)
    s ← get
    state ← lift (get_ratchet_state P Z friend_name s)
    (sealed, after) ← lift (
        mapped (value_error_as Error.ratchet_service_error)
          (run (encrypt P generated nonce plaintext) state))
    mark_dirty P Z accepts friend_name after
    give sealed

  unfoldable pub decrypt_message : Bool → Bytes → Text → Bytes → Bytes → Action RatchetService Bytes
  decrypt_message acquired generated friend_name header ciphertext = do
    lift (require acquired Error.concurrency_error)
    s ← get
    state ← lift (get_ratchet_state P Z friend_name s)
    (plaintext, after) ← lift (
        mapped (always Error.ratchet_service_error)
          (run (decrypt P generated header ciphertext) state))
    mark_dirty P Z accepts friend_name after
    give plaintext
