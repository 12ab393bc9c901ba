-- ===== src/DoubleRatchet/Header.antt =====
-- `decrypt` of services/double_ratchet.py takes the header apart that `encrypt` puts together.
use ultimate_enigma.Prelude.{
  ℕ, ◌+◌, ◌^◌, ◌<◌, ◌≡◌, sym, ap, ◌∙◌, ◌++◌, length, take, drop, slice, Error, require, le→leb,
  arith, length-append, take-append, drop-append, slice_between, append_assoc, take_all,
}
use ultimate_enigma.Action.{Action, after_lift, lift, ◌>>=◌}
use ultimate_enigma.Bytes.{Bytes, be_bytes, unpack_be}
use ultimate_enigma.Bytes.Laws.{length-be_bytes, unpack_be-be_bytes}
use ultimate_enigma.DoubleRatchet.{Primitives, RatchetState}
use ultimate_enigma.DoubleRatchet.Messages.{decrypt_numbered, decrypt}

module _ (P : Primitives) where
  -- A well-formed header is taken apart as it was put together.
  pub decrypt-header :
      (generated remote sealed : Bytes) (n prev : ℕ) (s : RatchetState)
      → n < 256 ^ 4
      → prev < 256 ^ 4
      → length remote ≡ 32
      → let header = be_bytes 4 n ++ (be_bytes 4 prev ++ remote) in
        decrypt P generated header sealed s
        ≡ decrypt_numbered P generated remote n prev header sealed s
  unfolding decrypt
  decrypt-header generated remote sealed n prev s hn hp size =
      let number = be_bytes 4 n in
      let previous = be_bytes 4 prev in
      let header = number ++ (previous ++ remote) in
      let ln = length-be_bytes 4 n in
      let lp = length-be_bytes 4 prev in
      let total : length header ≡ 40 = omega (
        arith,
        length-append number (previous ++ remote),
        length-append previous remote,
        ln,
        lp,
        size,
      ) in
      let key : slice header 8 40 ≡ remote =
        ap (take 32) (drop_both number previous remote 8 (omega (arith, ln, lp)))
        ∙ take_whole remote 32 (omega (arith, size)) in
      let finish : Bytes → ℕ → ℕ → Action RatchetState Bytes =
        λ k m p. decrypt_numbered P generated k m p header sealed in
      let third : ℕ → Action RatchetState Bytes =
        λ m. lift (unpack_be 4 (slice header 4 8)) >>= λ p. finish (slice header 8 40) m p in
      let second : Unit {0} → Action RatchetState Bytes =
        λ done. lift (unpack_be 4 (take 4 header)) >>= third in
      after_lift second (
        ap (λ t. require t (Error.value_error "Header too short"))
          (le→leb 40 (length header) (omega (arith, total))))
      ∙ after_lift third (
          ap (unpack_be 4) (take-append number (previous ++ remote) 4 (omega (arith, ln)))
          ∙ unpack_be-be_bytes 4 n hn)
      ∙ after_lift (finish (slice header 8 40) n) (
          ap (unpack_be 4)
            (slice_between number previous remote 4 8 (omega (arith, ln)) (omega (arith, ln, lp)))
          ∙ unpack_be-be_bytes 4 prev hp)
      ∙ ap (λ k. finish k n prev s) key
    where
      drop_both :
          (xs ys zs : Bytes) (i : ℕ) → i ≡ length xs + length ys → drop i (xs ++ (ys ++ zs)) ≡ zs
      drop_both xs ys zs i e =
          ap (drop i) (sym (append_assoc xs ys zs))
          ∙ drop-append (xs ++ ys) zs i (omega (arith, e, length-append xs ys))

      take_whole : (xs : Bytes) (i : ℕ) → i ≡ length xs → take i xs ≡ xs
      take_whole xs i e = take_all xs i (omega arith)
