-- ===== src/DoubleRatchet/Refuse.antt =====
-- A message too far ahead in its chain is refused and changes nothing.
use ultimate_enigma.Prelude.{
  ℕ, ◌+◌, ◌-◌, ◌^◌, ◌<◌, ◌≡◌, sym, ap, ◌∙◌, false, [], ◌∷◌, ◌++◌, length, none, some, ok, err,
  Error, require, leb, leb→le, Bool-cases, inl, inr, arith,
}
use ultimate_enigma.Action.{Action, continue, lift, get, put, ◌>>=◌, ◌>>◌}
use ultimate_enigma.Bytes.{Bytes, be_bytes}
use ultimate_enigma.Dict.{lookup, remove, remove_absent}
use ultimate_enigma.DoubleRatchet.{
  Primitives, RatchetState, attribute, key_names, max_skip_distance,
}
use ultimate_enigma.DoubleRatchet.Header.{decrypt-header}
use ultimate_enigma.DoubleRatchet.Deliver.{decrypt_numbered-known, after_pop}
use ultimate_enigma.DoubleRatchet.Messages.{skip_loop, decrypt_current, decrypt_numbered, decrypt}
use ultimate_enigma.DoubleRatchet.Payload.{decrypt_with_key}

module _ (P : Primitives) where
  decrypt_current-too_far :
      (remote header sealed : Bytes) (n : ℕ) (s : RatchetState)
      → s.recv_msg_num + max_skip_distance < n
      → decrypt_current P remote n header sealed s
        ≡ (err (Error.value_error "Skip distance exceeds maximum"), s)
  unfolding decrypt_current
  decrypt_current-too_far remote header sealed n s far =
      ap (λ t. continue (require t (Error.value_error "Skip distance exceeds maximum"), s) rest)
        refused
    where
      rest : Unit {0} → Action RatchetState Bytes
      rest done = do
        skip_loop P remote (n - s.recv_msg_num)
        state ← get
        ck ← lift (attribute state.recv_chain_key)
        put (record state {
          recv_chain_key = some (P.digest ck (2 ∷ []));
          recv_msg_num = state.recv_msg_num + 1;
        })
        lift (decrypt_with_key P.aead (P.digest ck (1 ∷ [])) sealed header)

      refused : leb (n - s.recv_msg_num) max_skip_distance ≡ false
      refused = elim (Bool-cases (leb (n - s.recv_msg_num) max_skip_distance)) [
        | inl near ↦ absurd (omega (arith, leb→le (n - s.recv_msg_num) max_skip_distance near))
        | inr e ↦ e
      ]

  refuse_settled :
      (generated remote header sealed : Bytes) (n prev : ℕ) (s : RatchetState)
      → P.from_public_bytes remote ≡ ok remote
      → lookup key_names (remote, n) s.skipped_keys ≡ none
      → s.recv_msg_num + max_skip_distance < n
      → let b = record s { dh_pub_remote = some remote } in
        decrypt_numbered P generated remote n prev header sealed b
        ≡ (err (Error.value_error "Skip distance exceeds maximum"), b)
  refuse_settled generated remote header sealed n prev s loads absent far =
      let b = record s { dh_pub_remote = some remote } in
      decrypt_numbered-known P generated remote header sealed n prev s loads
      ∙ ap
          (λ found.
            after_pop P remote n header sealed found
              (record b { skipped_keys = remove key_names (remote, n) s.skipped_keys }))
          absent
      ∙ ap (λ keys. decrypt_current P remote n header sealed (record b { skipped_keys = keys }))
          (remove_absent key_names (remote, n) s.skipped_keys absent)
      ∙ decrypt_current-too_far remote header sealed n b far

  -- A message of the known sender more than 1000 ahead of the receiver, for which no key is kept,
  -- is refused, and the state stays as it was: no chain key is derived and none is stored.
  pub decrypt-too_far :
      (generated remote sealed : Bytes) (n prev : ℕ) (b : RatchetState)
      → P.from_public_bytes remote ≡ ok remote
      → length remote ≡ 32
      → n < 256 ^ 4
      → prev < 256 ^ 4
      → b.dh_pub_remote ≡ some remote
      → lookup key_names (remote, n) b.skipped_keys ≡ none
      → b.recv_msg_num + max_skip_distance < n
      → decrypt P generated (be_bytes 4 n ++ (be_bytes 4 prev ++ remote)) sealed b
        ≡ (err (Error.value_error "Skip distance exceeds maximum"), b)
  decrypt-too_far generated remote sealed n prev b loads size hn hp known absent far =
      let header = be_bytes 4 n ++ (be_bytes 4 prev ++ remote) in
      let settled : b ≡ record b { dh_pub_remote = some remote } =
        ap (λ d. record b { dh_pub_remote = d }) known in
      decrypt-header P generated remote sealed n prev b hn hp size
      ∙ ap (decrypt_numbered P generated remote n prev header sealed) settled
      ∙ refuse_settled generated remote header sealed n prev b loads absent far
      ∙ ap (λ s. (err (Error.value_error "Skip distance exceeds maximum"), s)) (sym settled)
