-- ===== src/Shamir/Tests.antt =====
-- Witnesses and tests for services/shamir_service.py.
use mathlib.Core.List.{Memᴰ}
use ultimate_enigma.Prelude.{
  ℕ, ◌+◌, ◌*◌, ◌%◌, ◌<◌, ◌≡◌, refl, List, [], ◌∷◌, length, All, ok, arith,
}
use ultimate_enigma.Bytes.{Bytes, IsBytes}
use ultimate_enigma.Shamir.{
  Share, bytes_of, draws, append_values, split_bytes, number_shares, split_secret,
  reconstruct_secret,
}
use ultimate_enigma.Shamir.Gf256.{gf_add, gf_mul, gf_inv, gf_exp, gf_log, eval_poly}
use ultimate_enigma.Shamir.Gf256.Reference
use ultimate_enigma.Shamir.Gf256.Reference.{long_product}
use ultimate_enigma.Shamir.RoundTrip
use ultimate_enigma.Shamir.RoundTrip.{Different}

drawn_byte : ℕ → ℕ
drawn_byte n = (n * 37 + 11) % 256

drawn_byte-lt : (n : ℕ) → drawn_byte n < 256
unfolding drawn_byte
drawn_byte-lt n = omega arith

abbrev secret : Bytes
secret = 1 ∷ 200 ∷ []

secret-IsBytes : IsBytes secret
secret-IsBytes = (omega arith, (omega arith, tt))

abbrev first : Share
first = record { number = 1; content = 10 ∷ 248 ∷ [] }

abbrev second : Share
second = record { number = 2; content = 23 ∷ 168 ∷ [] }

abbrev third : Share
third = record { number = 3; content = 28 ∷ 152 ∷ [] }

split_example : split_secret drawn_byte secret 3 2 ≡ ok (first ∷ second ∷ third ∷ [])
unfolding split_secret bytes_of draws append_values split_bytes number_shares eval_poly gf_mul
    gf_add gf_exp gf_log drawn_byte
split_example = refl

among_split : All (λ s. Memᴰ s (first ∷ second ∷ third ∷ [])) (third ∷ first ∷ [])
among_split = (Memᴰ.tail (Memᴰ.tail (Memᴰ.head refl)), (Memᴰ.head refl, tt))

numbers-Different : Different (third ∷ first ∷ [])
numbers-Different = ((λ e. absurd (omega arith), tt), (tt, tt))

reconstruct-split_example : reconstruct_secret (third ∷ first ∷ []) 2 ≡ ok secret
reconstruct-split_example =
    RoundTrip.reconstruct-split drawn_byte drawn_byte-lt secret 3 2 (first ∷ second ∷ third ∷ [])
      (third ∷ first ∷ []) secret-IsBytes split_example among_split numbers-Different (omega arith)

split_secret-ok_example :
    (shares : List Share) × (split_secret drawn_byte secret 3 2 ≡ ok shares)
    × (length shares ≡ 3)
    × All (λ s. length s.content ≡ 2) shares
split_secret-ok_example =
    RoundTrip.split_secret-ok drawn_byte drawn_byte-lt secret 3 2 secret-IsBytes (omega arith)
      (omega arith) (omega arith) (omega arith)

gf_mul-long_product_example : gf_mul 0x53 0xCA ≡ ok (long_product 8 0x53 0xCA)
gf_mul-long_product_example = Reference.gf_mul-long_product 0x53 0xCA (omega arith) (omega arith)

gf_mul-gf_inv_example :
    (b : ℕ) × (gf_inv 0x53 ≡ ok b) × (0 < b) × (b < 256) × (gf_mul 0x53 b ≡ ok 1)
gf_mul-gf_inv_example = Reference.gf_mul-gf_inv 0x53 (omega arith) (omega arith)
