-- ===== src/DoubleRatchet/Tests.antt =====
-- Witnesses and tests for services/double_ratchet.py, with primitives that only add numbers.
use ultimate_enigma.Prelude.{
  ℕ, zero, suc, ◌+◌, ◌≡◌, refl, sym, ap, List, [], ◌∷◌, ◌++◌, drop, replicate, some, inr, ok, err,
  Error, ok_injective, arith,
}
use ultimate_enigma.Bytes.{Bytes, IsBytes, le_bytes, le_value, be_bytes}
use ultimate_enigma.Bytes.Laws.{length-le_bytes, le_bytes-IsBytes}
use ultimate_enigma.Dict.{lookup}
use ultimate_enigma.DoubleRatchet.{
  Primitives, RatchetState, KeyName, key_names, store_skipped_key, initial,
}
use ultimate_enigma.DoubleRatchet.Agree
use ultimate_enigma.DoubleRatchet.Agree.{Follows}
use ultimate_enigma.DoubleRatchet.Sending.{Lawful, Sealable, sending}
use ultimate_enigma.DoubleRatchet.OutOfOrder
use ultimate_enigma.DoubleRatchet.Deliver.{advance}
use ultimate_enigma.DoubleRatchet.Handshake.{hkdf_rk, initialize_as_alice, initialize_as_bob}
use ultimate_enigma.DoubleRatchet.Messages.{encrypt, decrypt}
use ultimate_enigma.DoubleRatchet.Rewind
use ultimate_enigma.DoubleRatchet.Refuse
use ultimate_enigma.DoubleRatchet.Store
use ultimate_enigma.DoubleRatchet.Store.{Tracked, AreQueued, with_store}

abbrev adding : Primitives
adding = record {
  public_key = λ priv. le_bytes 32 (le_value priv);
  exchange = λ priv remote. ok (le_bytes 32 (le_value priv + le_value remote));
  from_public_bytes = λ key. ok key;
  derive = λ salt material. le_bytes 64 (le_value salt + le_value material);
  digest = λ key message. le_bytes 32 (le_value key + le_value message);
  aead = record {
    seal = λ key nonce plaintext associated_data. ok (replicate 16 0 ++ plaintext);
    open_sealed = λ key nonce ciphertext associated_data. ok (drop 16 ciphertext);
  };
}

adding-Lawful : Lawful adding
adding-Lawful = record {
  length-public_key = λ priv. length-le_bytes 32 (le_value priv);
  from_public_bytes-ok = λ key h. refl;
  digest-IsBytes = λ key message. le_bytes-IsBytes 32 (le_value key + le_value message);
  length-digest = λ key message. length-le_bytes 32 (le_value key + le_value message);
  opens = λ key nonce plaintext ciphertext associated_data h.
      ap (λ c. ok (drop 16 c)) (sym (ok_injective h));
}

abbrev hello : Bytes
hello = b'h' ∷ b'i' ∷ []

hello-Sealable : Sealable adding hello
hello-Sealable key nonce associated_data hk hn = (replicate 16 0 ++ hello, refl)

zeros : (n : ℕ) → IsBytes (replicate n 0)
zeros zero = tt
zeros (suc n) = (omega arith, zeros n)

abbrev chain : Bytes
chain = 5 ∷ []

-- A sender that is three messages further on.
abbrev sender : RatchetState
sender = record initial {
  dh_priv = some (9 ∷ []);
  send_chain_key = some (advance adding 3 chain);
  send_msg_num = 7;
}

abbrev receiver : RatchetState
receiver = record initial {
  dh_pub_remote = some (adding.public_key (9 ∷ []));
  recv_chain_key = some chain;
  recv_msg_num = 4;
}

-- A receiver that was restored with a skipped key, which is not queued.
abbrev restored : RatchetState
restored = record receiver { skipped_keys = ((8 ∷ [], 1), 6 ∷ []) ∷ []; skipped_key_order = [] }

deliver_example :
    (header sealed : Bytes) × (a' b' : RatchetState) × (encrypt adding []
        (replicate 24 0)
        hello
        sender
      ≡ (ok (header, sealed), a'))
    × (decrypt adding [] header sealed restored ≡ (ok hello, b'))
    × Follows adding adding-Lawful (advance adding 4 chain) 0 a' b'
    × (Tracked restored → Tracked b')
unfolding key_names le_bytes le_value
deliver_example =
    Agree.deliver adding adding-Lawful [] [] (replicate 24 0) hello (9 ∷ []) chain 3 sender restored
      hello-Sealable (zeros 24) refl refl refl (refl, refl, refl) (omega arith) (omega arith) refl
      (inr (omega arith)) (omega arith)

initialize_in_step_example :
    (a' b' : RatchetState) × (initialize_as_alice adding []
        (adding.public_key (4 ∷ []))
        chain
        (some (3 ∷ []))
        initial
      ≡ (ok tt, a'))
    × (initialize_as_bob adding [] (adding.public_key (3 ∷ [])) chain (some (4 ∷ [])) initial
        ≡ (ok tt, b'))
    × (a'.dh_priv ≡ some (3 ∷ []))
    × (b'.dh_pub_remote ≡ some (adding.public_key (3 ∷ [])))
    × (a'.root_key ≡ b'.root_key)
    × Follows adding adding-Lawful (hkdf_rk adding chain (le_bytes 32 7)).1 0 a' b'
unfolding le_bytes le_value
initialize_in_step_example =
    Agree.initialize_in_step adding adding-Lawful [] [] chain (3 ∷ []) (4 ∷ []) (le_bytes 32 7)
      initial initial refl refl

decrypt-too_far_example :
    decrypt adding []
      (be_bytes 4 1005 ++ (be_bytes 4 0 ++ adding.public_key (9 ∷ [])))
      hello
      receiver
    ≡ (err (Error.value_error "Skip distance exceeds maximum"), receiver)
decrypt-too_far_example =
    Refuse.decrypt-too_far adding [] (adding.public_key (9 ∷ [])) hello 1005 0 receiver refl
      (length-le_bytes 32 (le_value (9 ∷ []))) (omega arith) (omega arith) refl refl (omega arith)

store_skipped_key-ok_example :
    (keys : List (KeyName × Bytes)) × (order : List KeyName) × (store_skipped_key
        (chain, 4)
        hello
        receiver
      ≡ (ok tt, with_store keys order receiver))
    × AreQueued keys order
    × (lookup key_names (chain, 4) keys ≡ some hello)
store_skipped_key-ok_example = Store.store_skipped_key-ok (chain, 4) hello receiver tt

deliver_out_of_order_example :
    (header sealed header' sealed' : Bytes) × (a' a'' b' b'' : RatchetState) × (encrypt adding []
        (replicate 24 0)
        hello
        (sending adding adding-Lawful (9 ∷ []) (advance adding 1 chain) 5 sender)
      ≡ (ok (header, sealed), a'))
    × (encrypt adding []
          (replicate 24 0)
          (b'k' ∷ [])
          (sending adding adding-Lawful (9 ∷ []) (advance adding 3 chain) 7 sender)
        ≡ (ok (header', sealed'), a''))
    × (decrypt adding [] header' sealed' receiver ≡ (ok (b'k' ∷ []), b'))
    × (decrypt adding [] header sealed b' ≡ (ok hello, b''))
deliver_out_of_order_example =
    OutOfOrder.deliver_out_of_order adding adding-Lawful [] (replicate 24 0) (replicate 24 0) hello
      (b'k' ∷ []) (9 ∷ []) chain 1 3 sender receiver hello-Sealable
      (λ key nonce associated_data hk hn. (replicate 16 0 ++ b'k' ∷ [], refl)) (zeros 24) (zeros 24)
      refl refl refl refl (omega arith) (omega arith) (omega arith) (omega arith) (omega arith) refl

-- The receiver has gone on to another key of the sender and kept the key of message 2.
abbrev gone_on : RatchetState
gone_on = record initial {
  dh_pub_remote = some (8 ∷ []);
  dh_priv = some (4 ∷ []);
  root_key = some (6 ∷ []);
  recv_chain_key = some chain;
  recv_msg_num = 1;
  skipped_keys = ((9 ∷ [], 2), 3 ∷ []) ∷ [];
}
