-- ===== src/RatchetService/Tests.antt =====
-- Witnesses and tests for services/ratchet_service.py and for the storage of
-- services/double_ratchet.py.
use ultimate_enigma.Prelude.{
  ◌≡◌, ◌⊎◌, refl, [], ◌∷◌, ◌++◌, drop, replicate, Bool, true, none, some, ok, err, Error, All,
  arith,
}
use ultimate_enigma.Utf8
use ultimate_enigma.Utf8.{Text, encode_char}
use ultimate_enigma.Hex.{hex}
use ultimate_enigma.Decimal.{str}
use ultimate_enigma.DoubleRatchet.{Primitives, RatchetState, initial}
use ultimate_enigma.DoubleRatchet.Restore
use ultimate_enigma.DoubleRatchet.Restore.{Storable}
use ultimate_enigma.DoubleRatchet.Serialize.{serialize, deserialize, serialize_skipped}
use ultimate_enigma.RatchetService.{RatchetService, friend_names, flush_dirty_states}
use ultimate_enigma.RatchetService.Buffer
use ultimate_enigma.RatchetService.Buffer.{sends, receives, after_calls}
use ultimate_enigma.RatchetService.Flush
use ultimate_enigma.RatchetService.Flush.{Loads}
use ultimate_enigma.RatchetService.Locks.{
  Locks, owns, friend_lock, get_friend_lock, set_lock, acquire, unique_names, insert_name,
  acquire_friend_locks_ordered,
}
use ultimate_enigma.RatchetService.Locks.Batch
use ultimate_enigma.RatchetService.Locks.Cleanup
use ultimate_enigma.RatchetService.Locks.Cleanup.{cleanup_friend_locks}
use ultimate_enigma.RatchetService.Locks.Orderly
use ultimate_enigma.RatchetService.Locks.Undo.{IsSound, SameLocks}
use ultimate_enigma.RatchetService.Locks.Waiting.{
  System, Acquirer, Reach, here, next, call, take_lock, IsOrderly, Chain, update,
}
use ultimate_enigma.RatchetService.Sample.{sample, sample-Lawful, dumps}
use ultimate_enigma.RatchetService.Session.{encrypt_message}

abbrev plain : Primitives
plain = record {
  public_key = λ priv. priv;
  exchange = λ priv remote. ok remote;
  from_public_bytes = λ key. ok key;
  derive = λ salt material. replicate 64 1;
  digest = λ key message. replicate 32 2;
  aead = record {
    seal = λ key nonce plaintext associated_data. ok (replicate 16 0 ++ plaintext);
    open_sealed = λ key nonce ciphertext associated_data. ok (drop 16 ciphertext);
  };
}

-- A session with one skipped key.
abbrev session : RatchetState
session = record initial {
  dh_priv = some (replicate 32 9);
  root_key = some (replicate 32 171);
  recv_msg_num = 12;
  skipped_keys = ((replicate 32 5, 10), 1 ∷ 2 ∷ []) ∷ [];
  skipped_key_order = (replicate 32 5, 10) ∷ [];
}

session-Storable : Storable session
session-Storable = record {
  root_key = omega arith;
  send_chain_key = tt;
  recv_chain_key = tt;
  dh_priv = omega arith;
  dh_pub_remote = tt;
  skipped_bytes = (omega arith, tt);
  skipped_distinct = (tt, tt);
}

deserialize-serialize_example :
    deserialize plain (λ key. ok key) (serialize session)
    ≡ ok (record session { skipped_key_order = [] })
deserialize-serialize_example =
    Restore.deserialize-serialize plain (λ key. ok key) session session-Storable (λ key h. refl)
      (λ key h. refl)

abbrev bob : Text
bob = b'b' ∷ []

abbrev service : RatchetService
service = record {
  storage_key = some (replicate 32 3);
  dirty_states = (bob, session) ∷ [];
  flush_timer = true;
  rows = (bob, none) ∷ [];
}

abbrev accepts : Text → Bool
accepts name = true

encodes : Utf8.encode (dumps (serialize session)) ≡ ok (dumps (serialize session))
unfolding Utf8.encode encode_char serialize serialize_skipped hex str
encodes = refl

flush_dirty_states-Loads_example :
    (s' : RatchetService) × (flush_dirty_states plain sample accepts
        (λ name. replicate 12 0)
        service
      ≡ (ok 1, s'))
    × All (Loads plain sample accepts (sample-Lawful plain (λ key h. refl)) s') service.dirty_states
    × (s'.dirty_states ≡ [])
flush_dirty_states-Loads_example =
    Flush.flush_dirty_states-Loads plain sample accepts (sample-Lawful plain (λ key h. refl))
      (λ name. replicate 12 0) (replicate 32 3) service refl (tt, tt)
      (
        (
          record {
            accepted = refl;
            nonce_length = refl;
            plaintext = dumps (serialize session);
            encoded = encodes;
            ciphertext = replicate 16 0 ++ dumps (serialize session);
            sealed = refl;
            storable = session-Storable;
          },
          refl,
        ),
        tt,
      )

encrypt_message-after_calls_example :
    (encrypt_message plain sample accepts true [] (replicate 24 0) bob (b'x' ∷ []) (
      after_calls plain sample accepts
        (sends true [] (replicate 24 0) bob (b'y' ∷ []) ∷ receives true [] bob [] [] ∷ [])
        service)).0
    ≡ (encrypt_message plain sample accepts true [] (replicate 24 0) bob (b'x' ∷ []) service).0
encrypt_message-after_calls_example =
    Buffer.encrypt_message-after_calls plain sample accepts
      (sends true [] (replicate 24 0) bob (b'y' ∷ []) ∷ receives true [] bob [] [] ∷ []) true []
      (replicate 24 0) bob (b'x' ∷ []) service

abbrev no_locks : Locks
no_locks = record { friend_locks = []; timestamps = [] }

-- Another thread, 2, holds the lock of "b".
abbrev busy : Locks
busy = record {
  friend_locks = (bob, record { owner = some 2; depth = 1 }) ∷ [];
  timestamps = (bob, 0) ∷ [];
}

cleanup_friend_locks-keeps_example :
    friend_lock bob (cleanup_friend_locks 9000 1 none busy).1 ≡ friend_lock bob busy
unfolding friend_lock friend_names
cleanup_friend_locks-keeps_example =
    Cleanup.cleanup_friend_locks-keeps 1 2 (omega arith) bob 9000 none busy refl

no_locks-IsSound : (m : Text) → IsSound (friend_lock m no_locks)
unfolding friend_lock
no_locks-IsSound m = record { unheld = λ h. refl; counted = λ h. cc }

acquire_friend_locks_ordered_cases_example :
    (s' : Locks) × (((acquire_friend_locks_ordered
            (λ name. name)
            5
            1
            (bob ∷ (b'a' ∷ []) ∷ bob ∷ [])
            no_locks
          ≡ (ok (unique_names (λ name. name) (bob ∷ (b'a' ∷ []) ∷ bob ∷ [])), s'))
        × All
            (λ n. owns 1 (friend_lock n s') ≡ true)
            (unique_names (λ name. name) (bob ∷ (b'a' ∷ []) ∷ bob ∷ [])))
      ⊎ ((acquire_friend_locks_ordered (λ name. name) 5 1 (bob ∷ (b'a' ∷ []) ∷ bob ∷ []) no_locks
            ≡ (err Error.concurrency_error, s'))
          × SameLocks s' no_locks))
acquire_friend_locks_ordered_cases_example =
    Batch.acquire_friend_locks_ordered_cases 1 (λ name. name) 5 (bob ∷ (b'a' ∷ []) ∷ bob ∷ [])
      no_locks no_locks-IsSound

abbrev idle : Acquirer
idle = record { names = []; done = 0 }

abbrev start : System
start = record { threads = λ t. idle; locks = no_locks }

start-IsOrderly : IsOrderly (λ name. name) start
unfolding friend_lock
start-IsOrderly = record { held = λ t n owned. cc; idle = λ n h. refl }

abbrev called : System
called = record {
  threads = update 1 (record { names = bob ∷ []; done = 0 }) start.threads;
  locks = no_locks;
}

abbrev acquired : System
acquired = record {
  threads = update 1 (record { names = bob ∷ []; done = 1 }) called.threads;
  locks = record {
    friend_locks = (bob, record { owner = some 1; depth = 1 }) ∷ [];
    timestamps = (bob, 7) ∷ [];
  };
}

one_round : Reach (λ name. name) start acquired
unfolding unique_names insert_name acquire get_friend_lock friend_lock set_lock friend_names
one_round = next (next here (call 1 (bob ∷ []) refl refl refl)) (take_lock 7 1 bob refl refl refl)

Reach-not-Chain_example : ¬ Chain (λ name. name) acquired 1 1
Reach-not-Chain_example =
    Orderly.Reach-not-Chain (λ name. name) start acquired 1 start-IsOrderly one_round
