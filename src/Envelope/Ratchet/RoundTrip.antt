-- ===== src/Envelope/Ratchet/RoundTrip.antt =====
-- The parser of a ratchet envelope accepts exactly the packets that `build` makes.
use mathlib.Core.List.{append_assoc}
use ultimate_enigma.Prelude.{
  ℕ, ◌+◌, ◌-◌, ◌^◌, ◌≤◌, ◌<◌, ◌≡◌, ◌≢◌, refl, sym, ◌==◌, ap, ◌∙◌, [], ◌∷◌, ◌++◌, length,
  length-append, slice, drop, true, leb, le→leb, leb→le, ==_iff, arith, ok, ok_injective, >>=-ok,
  require-ok, slice_between, drop-append, slice-append-drop, length-slice,
}
use ultimate_enigma.Bytes.{Bytes, IsBytes, pack_be, unpack_be, be_bytes}
use ultimate_enigma.Bytes.Laws.{
  IsBytes-take, IsBytes-drop, pack_be_inv, pack_be-unpack_be_two, unpack_be-be_bytes,
  length-be_bytes,
}
use ultimate_enigma.Utf8
use ultimate_enigma.Utf8.{Text}
use ultimate_enigma.Utf8.Laws.{decode-encode, encode-decode}
use ultimate_enigma.Envelope.Wire.{
  is_nonempty, as_value_error_ok, is_nonempty_of_ne, ne_of_is_nonempty,
}
use ultimate_enigma.Envelope.Ratchet.{RatchetEnvelope, build, parse_fields, parse}

module _ (packet name hdr_len hdr ct : Bytes) (text : Text) (n h : ℕ)
    (s1 : slice packet 2 (2 + n) ≡ name) (decoded : Utf8.decode name ≡ ok text)
    (named : is_nonempty text ≡ true) (s2 : slice packet (2 + n) (2 + n + 2) ≡ hdr_len)
    (unpacked : unpack_be 2 hdr_len ≡ ok h) (fits : 2 + n + 2 + h ≤ length packet)
    (s3 : slice packet (2 + n + 2) (2 + n + 2 + h) ≡ hdr) (s4 : drop (2 + n + 2 + h) packet ≡ ct)
    (full : is_nonempty ct ≡ true) where
  parse_fields_lem :
      parse_fields packet n ≡ ok (record { sender_name = text; header = hdr; ciphertext = ct })
  unfolding parse_fields
  parse_fields_lem = rw (
    le→leb (2 + n) (length packet) (omega arith),
    s1,
    decoded,
    named,
    le→leb (2 + n + 2) (length packet) (omega arith),
    s2,
    unpacked,
    le→leb (2 + n + 2 + h) (length packet) fits,
    s3,
    s4,
    full,
  )

-- The pieces of a packet, at the offsets where the parser looks for them.
module _ (a b : ℕ) (name hdr_len hdr ct : Bytes) where
  abbrev wire : Bytes
  wire = a ∷ b ∷ (name ++ (hdr_len ++ (hdr ++ ct)))

  slice_name : slice wire 2 (2 + length name) ≡ name
  slice_name = slice_between (a ∷ b ∷ []) name (hdr_len ++ (hdr ++ ct)) 2 _ refl refl

  module _ (two : length hdr_len ≡ 2) where
    slice_len : slice wire (2 + length name) (2 + length name + 2) ≡ hdr_len
    slice_len = slice_between (a ∷ b ∷ name) hdr_len (hdr ++ ct) _ _ (omega arith) (omega arith)

    slice_header : slice wire (2 + length name + 2) (2 + length name + 2 + length hdr) ≡ hdr
    slice_header = rw (← append_assoc name hdr_len (hdr ++ ct)) (
        slice_between (a ∷ b ∷ (name ++ hdr_len)) hdr ct _ _
          (omega (arith, length-append name hdr_len)) (omega (arith, length-append name hdr_len)))

    drop_header : drop (2 + length name + 2 + length hdr) wire ≡ ct
    drop_header =
        rw (← append_assoc hdr_len hdr ct, ← append_assoc name (hdr_len ++ hdr) ct)
          (drop-append (a ∷ b ∷ (name ++ (hdr_len ++ hdr))) ct _
            (omega (arith, length-append name (hdr_len ++ hdr), length-append hdr_len hdr)))

    length-wire : length wire ≡ 2 + length name + 2 + length hdr + length ct
    length-wire = omega (
      arith,
      length-append name (hdr_len ++ (hdr ++ ct)),
      length-append hdr_len (hdr ++ ct),
      length-append hdr ct,
    )

parse-wire :
    (name hdr ct : Bytes) (text : Text)
    → Utf8.decode name ≡ ok text
    → is_nonempty text ≡ true
    → length hdr < 256 ^ 2
    → is_nonempty ct ≡ true
    → parse (wire 0xD0 (length name) name (be_bytes 2 (length hdr)) hdr ct)
      ≡ ok (record { sender_name = text; header = hdr; ciphertext = ct })
unfolding parse
parse-wire name hdr ct text decoded named small full =
    let n = length name in
    let len = be_bytes 2 (length hdr) in
    let two : length len ≡ 2 = length-be_bytes 2 (length hdr) in
    let size = length-wire 0xD0 n name len hdr ct two in
    rw (
      le→leb 4 (length (wire 0xD0 n name len hdr ct)) (omega arith),
      parse_fields_lem (wire 0xD0 n name len hdr ct) name len hdr ct text n (length hdr)
          (slice_name 0xD0 n name len hdr ct) decoded named (slice_len 0xD0 n name len hdr ct two)
          (unpack_be-be_bytes 2 (length hdr) small) (omega arith)
          (slice_header 0xD0 n name len hdr ct two) (drop_header 0xD0 n name len hdr ct two) full,
    )

-- A packet that `build` makes from an envelope with a name and a ciphertext, both not empty,
-- parses to that envelope.
pub parse-build_ratchet :
    (e : RatchetEnvelope) (packet : Bytes)
    → build e ≡ ok packet
    → e.sender_name ≢ []
    → e.ciphertext ≢ []
    → parse packet ≡ ok e
unfolding build
parse-build_ratchet e packet built named full =
    let (name, name_ok, built1) = >>=-ok (Utf8.encode e.sender_name) _ built in
    let (short, built2) = require-ok (leb (length name) 255) _ _ built1 in
    let (len, len_ok, built3) = >>=-ok (pack_be 2 (length e.header)) _ built2 in
    let (small, digits) = pack_be_inv 2 (length e.header) len len_ok in
    rw (← ok_injective built3, digits)
      (parse-wire name e.header e.ciphertext e.sender_name
        (decode-encode e.sender_name name name_ok) (is_nonempty_of_ne e.sender_name named) small
        (is_nonempty_of_ne e.ciphertext full))

record Fields (packet : Bytes) (n : ℕ) (e : RatchetEnvelope) : Type 0 where
  header_len : ℕ
  name_fits : 2 + n ≤ length packet
  decoded : Utf8.decode (slice packet 2 (2 + n)) ≡ ok e.sender_name
  named : is_nonempty e.sender_name ≡ true
  len_fits : 2 + n + 2 ≤ length packet
  unpacked : unpack_be 2 (slice packet (2 + n) (2 + n + 2)) ≡ ok header_len
  header_fits : 2 + n + 2 + header_len ≤ length packet
  header : e.header ≡ slice packet (2 + n + 2) (2 + n + 2 + header_len)
  rest : e.ciphertext ≡ drop (2 + n + 2 + header_len) packet
  full : is_nonempty e.ciphertext ≡ true

parse_fields_inv :
    (packet : Bytes) (n : ℕ) (e : RatchetEnvelope)
    → parse_fields packet n ≡ ok e
    → Fields packet n e
unfolding parse_fields
parse_fields_inv packet n e h =
    let (g1, h1) = require-ok (leb (2 + n) (length packet)) _ _ h in
    let (text, decoded, h2) = >>=-ok (Utf8.decode (slice packet 2 (2 + n))) _ h1 in
    let (named, h3) = require-ok (is_nonempty text) _ _ h2 in
    let (g2, h4) = require-ok (leb (2 + n + 2) (length packet)) _ _ h3 in
    let (len, unpacked, h5) = >>=-ok (unpack_be 2 (slice packet (2 + n) (2 + n + 2))) _ h4 in
    let (g3, h6) = require-ok (leb (2 + n + 2 + len) (length packet)) _ _ h5 in
    let (full, h7) = require-ok (is_nonempty (drop (2 + n + 2 + len) packet)) _ _ h6 in
    let result = ok_injective h7 in
    record {
      header_len = len;
      name_fits = leb→le _ _ g1;
      decoded = decoded ∙ ap ok (ap (λ (x : RatchetEnvelope). x.sender_name) result);
      named = rw (← result) named;
      len_fits = leb→le _ _ g2;
      unpacked = unpacked;
      header_fits = leb→le _ _ g3;
      header = rw (← result);
      rest = rw (← result);
      full = rw (← result) full;
    }

slices_join :
    (packet : Bytes) (n h : ℕ)
    → slice packet 2 (2 + n)
        ++ (slice packet (2 + n) (2 + n + 2)
            ++ (slice packet (2 + n + 2) (2 + n + 2 + h) ++ drop (2 + n + 2 + h) packet))
      ≡ drop 2 packet
slices_join packet n h =
    rw
      (
        slice-append-drop packet (2 + n + 2) (2 + n + 2 + h) (omega arith),
        slice-append-drop packet (2 + n) (2 + n + 2) (omega arith),
      )
      (slice-append-drop packet 2 (2 + n) (omega arith))

build_of_Fields :
    (a n : ℕ) (rest : Bytes) (e : RatchetEnvelope)
    → IsBytes (a ∷ n ∷ rest)
    → Fields (a ∷ n ∷ rest) n e
    → build e ≡ ok (0xD0 ∷ n ∷ rest)
unfolding build
build_of_Fields a n rest e bytes f =
    let packet : Bytes = a ∷ n ∷ rest in
    let h = f.header_len in
    let name_len : length (slice packet 2 (2 + n)) ≡ n =
      length-slice packet 2 (2 + n) f.name_fits ∙ omega arith in
    let hdr_len : length (slice packet (2 + n + 2) (2 + n + 2 + h)) ≡ h =
      length-slice packet (2 + n + 2) (2 + n + 2 + h) f.header_fits ∙ omega arith in
    let two_bytes : IsBytes (slice packet (2 + n) (2 + n + 2)) =
      IsBytes-take (2 + n + 2 - (2 + n)) (drop (2 + n) packet)
        (IsBytes-drop (2 + n) packet bytes) in
    rw (
      encode-decode (slice packet 2 (2 + n)) e.sender_name f.decoded,
      name_len,
      le→leb n 255 (omega arith),
      f.header,
      hdr_len,
      pack_be-unpack_be_two (slice packet (2 + n) (2 + n + 2)) h two_bytes f.unpacked,
      f.rest,
      slices_join packet n h,
    )

-- A list of bytes that parses is what `build` makes of the envelope that it parses to; the
-- envelope has a name and a ciphertext, both not empty.
pub build-parse_ratchet :
    (packet : Bytes) (e : RatchetEnvelope)
    → IsBytes packet
    → parse packet ≡ ok e
    → (build e ≡ ok packet) × (e.sender_name ≢ []) × (e.ciphertext ≢ [])
unfolding parse build
build-parse_ratchet (a ∷ b ∷ rest) e bytes parsed =
    let (long, p1) = require-ok (leb 4 (length (a ∷ b ∷ rest))) _ _ parsed in
    let (magic, p2) = require-ok (a == 0xD0) _ _ p1 in
    let f =
      parse_fields_inv (a ∷ b ∷ rest) b e
        (as_value_error_ok (parse_fields (a ∷ b ∷ rest) b) e p2) in
    (
      build_of_Fields a b rest e bytes f
          ∙ ap (λ m. ok (m ∷ b ∷ rest)) (sym ((==_iff a 0xD0).0 magic)),
      ne_of_is_nonempty e.sender_name f.named,
      ne_of_is_nonempty e.ciphertext f.full,
    )
build-parse_ratchet packet e bytes parsed = absurd (ground arith)
