-- ===== src/Envelope/Pqc/RoundTrip.antt =====
-- The parser of a post-quantum envelope accepts exactly the packets that `build` makes of
-- envelopes with a tag and the default nonce length.
use mathlib.Core.List.{append_assoc}
use ultimate_enigma.Prelude.{
  ℕ, ◌+◌, ◌^◌, ◌≤◌, ◌<◌, ◌≡◌, refl, sym, ◌==◌, ap, ◌∙◌, [], ◌∷◌, ◌++◌, length, length-append, slice,
  drop, leb, le→leb, leb→le, ==_iff, arith, ok, ok_injective, >>=-ok, require-ok, slice_between,
  drop-append, slice-append-drop, length-slice,
}
use ultimate_enigma.Bytes.{Bytes, IsBytes, pack_be, unpack_be, be_bytes}
use ultimate_enigma.Bytes.Laws.{
  IsBytes-take, IsBytes-drop, pack_be_inv, pack_be-unpack_be_two, unpack_be-be_bytes,
  length-be_bytes,
}
use ultimate_enigma.Envelope.Wire.{as_value_error_ok}
use ultimate_enigma.Envelope.Pqc.{PqcEnvelope, default_nonce_length, build, parse_fields, parse}

module _ (a : ℕ) (kem_len kem nonce aes : Bytes) where
  abbrev wire : Bytes
  wire = a ∷ (kem_len ++ (kem ++ (nonce ++ aes)))

  slice_len : length kem_len ≡ 2 → slice wire 1 3 ≡ kem_len
  slice_len two = slice_between (a ∷ []) kem_len (kem ++ (nonce ++ aes)) 1 3 refl (omega arith)

  module _ (two : length kem_len ≡ 2) where
    slice_kem : slice wire 3 (3 + length kem) ≡ kem
    slice_kem = slice_between (a ∷ kem_len) kem (nonce ++ aes) 3 _ (omega arith) (omega arith)

    slice_nonce : length nonce ≡ 12 → slice wire (3 + length kem) (3 + length kem + 12) ≡ nonce
    slice_nonce twelve = rw (← append_assoc kem_len kem (nonce ++ aes)) (
        slice_between (a ∷ (kem_len ++ kem)) nonce aes _ _
          (omega (arith, length-append kem_len kem)) (omega (arith, length-append kem_len kem)))

    drop_nonce : length nonce ≡ 12 → drop (3 + length kem + 12) wire ≡ aes
    drop_nonce twelve =
        rw (← append_assoc kem nonce aes, ← append_assoc kem_len (kem ++ nonce) aes)
          (drop-append (a ∷ (kem_len ++ (kem ++ nonce))) aes _
            (omega (arith, length-append kem_len (kem ++ nonce), length-append kem nonce)))

    length-wire : length wire ≡ 3 + length kem + length nonce + length aes
    length-wire = omega (
      arith,
      length-append kem_len (kem ++ (nonce ++ aes)),
      length-append kem (nonce ++ aes),
      length-append nonce aes,
    )

parse-wire :
    (kem nonce aes : Bytes)
    → length kem < 256 ^ 2
    → length nonce ≡ 12
    → 16 ≤ length aes
    → parse (wire 0x50 (be_bytes 2 (length kem)) kem nonce aes)
      ≡ ok (record {
        kem_ciphertext = kem;
        nonce = nonce;
        aes_ciphertext = aes;
        nonce_length = default_nonce_length;
      })
unfolding parse parse_fields
parse-wire kem nonce aes small twelve tag =
    let len = be_bytes 2 (length kem) in
    let packet = wire 0x50 len kem nonce aes in
    let two : length len ≡ 2 = length-be_bytes 2 (length kem) in
    let size = length-wire 0x50 len kem nonce aes two in
    rw (
      le→leb 3 (length packet) (omega arith),
      slice_len 0x50 len kem nonce aes two,
      unpack_be-be_bytes 2 (length kem) small,
      le→leb (3 + length kem) (length packet) (omega arith),
      le→leb (3 + length kem + 12) (length packet) (omega arith),
      drop_nonce 0x50 len kem nonce aes two twelve,
      le→leb 16 (length aes) tag,
      slice_kem 0x50 len kem nonce aes two,
      slice_nonce 0x50 len kem nonce aes two twelve,
    )

-- A packet that `build` makes from an envelope with the default nonce length and a ciphertext
-- of 16 bytes at least parses to that envelope.
pub parse-build_pqc :
    (e : PqcEnvelope) (packet : Bytes)
    → build e ≡ ok packet
    → e.nonce_length ≡ default_nonce_length
    → 16 ≤ length e.aes_ciphertext
    → parse packet ≡ ok e
unfolding build
parse-build_pqc e packet built default tag =
    let (sized, built1) = require-ok (length e.nonce == e.nonce_length) _ _ built in
    let (len, len_ok, built2) = >>=-ok (pack_be 2 (length e.kem_ciphertext)) _ built1 in
    let (small, digits) = pack_be_inv 2 (length e.kem_ciphertext) len len_ok in
    let twelve = (==_iff (length e.nonce) e.nonce_length).0 sized ∙ default in
    rw (← ok_injective built2, digits)
      (parse-wire e.kem_ciphertext e.nonce e.aes_ciphertext small twelve tag
        ∙ ap (λ n. ok (record e { nonce_length = n })) (sym default))

slices_join :
    (packet : Bytes) (h : ℕ)
    → slice packet 1 3
        ++ (slice packet 3 (3 + h)
            ++ (slice packet (3 + h) (3 + h + 12) ++ drop (3 + h + 12) packet))
      ≡ drop 1 packet
slices_join packet h =
    rw
      (
        slice-append-drop packet (3 + h) (3 + h + 12) (omega arith),
        slice-append-drop packet 3 (3 + h) (omega arith),
      )
      (slice-append-drop packet 1 3 (omega arith))

record Fields (packet : Bytes) (e : PqcEnvelope) : Type 0 where
  kem_len : ℕ
  unpacked : unpack_be 2 (slice packet 1 3) ≡ ok kem_len
  fits : 3 + kem_len + 12 ≤ length packet
  kem : e.kem_ciphertext ≡ slice packet 3 (3 + kem_len)
  nonce : e.nonce ≡ slice packet (3 + kem_len) (3 + kem_len + 12)
  aes : e.aes_ciphertext ≡ drop (3 + kem_len + 12) packet
  tag : 16 ≤ length e.aes_ciphertext
  default : e.nonce_length ≡ default_nonce_length

parse_fields_inv :
    (packet : Bytes) (n : ℕ) (e : PqcEnvelope)
    → unpack_be 2 (slice packet 1 3) ≡ ok n
    → parse_fields packet n ≡ ok e
    → Fields packet e
unfolding parse_fields
parse_fields_inv packet n e unpacked h =
    let (g1, h1) = require-ok (leb (3 + n) (length packet)) _ _ h in
    let (g2, h2) = require-ok (leb (3 + n + 12) (length packet)) _ _ h1 in
    let (g3, h3) = require-ok (leb 16 (length (drop (3 + n + 12) packet))) _ _ h2 in
    let result = ok_injective h3 in
    record {
      kem_len = n;
      unpacked = unpacked;
      fits = leb→le _ _ g2;
      kem = rw (← result);
      nonce = rw (← result);
      aes = rw (← result);
      tag = rw (← result) (leb→le _ _ g3);
      default = rw (← result);
    }

build_of_Fields :
    (a : ℕ) (rest : Bytes) (e : PqcEnvelope)
    → IsBytes (a ∷ rest)
    → Fields (a ∷ rest) e
    → build e ≡ ok (0x50 ∷ rest)
unfolding build
build_of_Fields a rest e bytes f =
    let packet : Bytes = a ∷ rest in
    let h = f.kem_len in
    let kem_len : length (slice packet 3 (3 + h)) ≡ h =
      length-slice packet 3 (3 + h) (omega (arith, f.fits)) ∙ omega arith in
    let twelve : length (slice packet (3 + h) (3 + h + 12)) ≡ 12 =
      length-slice packet (3 + h) (3 + h + 12) f.fits ∙ omega arith in
    let two_bytes : IsBytes (slice packet 1 3) =
      IsBytes-take 2 (drop 1 packet) (IsBytes-drop 1 packet bytes) in
    rw (
      f.default,
      f.nonce,
      twelve,
      f.kem,
      kem_len,
      pack_be-unpack_be_two (slice packet 1 3) h two_bytes f.unpacked,
      f.aes,
      slices_join packet h,
    )

-- A list of bytes that parses is what `build` makes of the envelope that it parses to; that
-- envelope has the default nonce length and a ciphertext of 16 bytes at least.
pub build-parse_pqc :
    (packet : Bytes) (e : PqcEnvelope)
    → IsBytes packet
    → parse packet ≡ ok e
    → (build e ≡ ok packet)
      × (e.nonce_length ≡ default_nonce_length)
      × (16 ≤ length e.aes_ciphertext)
unfolding parse
build-parse_pqc (a ∷ rest) e bytes parsed =
    let (long, p1) = require-ok (leb 3 (length (a ∷ rest))) _ _ parsed in
    let (magic, p2) = require-ok (a == 0x50) _ _ p1 in
    let p3 = as_value_error_ok _ e p2 in
    let (n, unpacked, p4) = >>=-ok (unpack_be 2 (slice (a ∷ rest) 1 3)) _ p3 in
    let f = parse_fields_inv (a ∷ rest) n e unpacked p4 in
    (
      build_of_Fields a rest e bytes f ∙ ap (λ m. ok (m ∷ rest)) (sym ((==_iff a 0x50).0 magic)),
      f.default,
      f.tag,
    )
build-parse_pqc [] e bytes parsed = cc
