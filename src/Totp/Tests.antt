-- ===== src/Totp/Tests.antt =====
-- Witnesses and tests for services/totp_service.py: the secret of RFC 6238 and the digests that
-- HMAC-SHA1 has for its first counters.
use ultimate_enigma.Prelude.{
  ℕ, zero, suc, ◌+◌, ◌/◌, ◌≤◌, ◌≡◌, refl, [], ◌∷◌, Bool, true, false, ◌&&◌, ◌==◌, leb, some, ok,
}
use ultimate_enigma.Bytes.{Bytes, pack_be, unpack_be, be_bytes, be_value}
use ultimate_enigma.Utf8.{Text}
use ultimate_enigma.Totp.{
  TotpService, initial, advance, accept, try_candidates, verify, generate, strip, totp_interval,
}
use ultimate_enigma.Totp.Code.{fits, code_at, code_now, hotp, decimal, compare_digest}
use ultimate_enigma.Totp.Replay

abbrev rfc_secret : Bytes
rfc_secret =
    49 ∷ 50 ∷ 51 ∷ 52 ∷ 53 ∷ 54 ∷ 55 ∷ 56 ∷ 57 ∷ 48 ∷ 49 ∷ 50 ∷ 51 ∷ 52 ∷ 53 ∷ 54 ∷ 55 ∷ 56 ∷ 57
    ∷ 48 ∷ []

abbrev digest_of_counter : ℕ → Bytes
digest_of_counter zero =
    204 ∷ 147 ∷ 207 ∷ 24 ∷ 80 ∷ 141 ∷ 148 ∷ 147 ∷ 76 ∷ 100 ∷ 182 ∷ 93 ∷ 139 ∷ 167 ∷ 102 ∷ 127 ∷ 183
    ∷ 205 ∷ 228 ∷ 176 ∷ []
digest_of_counter (suc zero) =
    117 ∷ 164 ∷ 138 ∷ 25 ∷ 212 ∷ 203 ∷ 225 ∷ 0 ∷ 100 ∷ 78 ∷ 138 ∷ 193 ∷ 57 ∷ 126 ∷ 234 ∷ 116 ∷ 122
    ∷ 45 ∷ 51 ∷ 171 ∷ []
digest_of_counter (suc (suc n)) =
    11 ∷ 172 ∷ 183 ∷ 250 ∷ 8 ∷ 47 ∷ 239 ∷ 48 ∷ 120 ∷ 34 ∷ 17 ∷ 147 ∷ 139 ∷ 193 ∷ 197 ∷ 231 ∷ 4 ∷ 22
    ∷ 255 ∷ 68 ∷ []

abbrev last : Bytes → ℕ
last [] = 0
last (b ∷ []) = b
last (b ∷ c ∷ bs) = last (c ∷ bs)

abbrev rfc_digest : Bytes → Bytes → Bytes
rfc_digest secret msg = digest_of_counter (last msg)

abbrev is_space : ℕ → Bool
is_space c = c == b' '

abbrev is_digit : ℕ → Bool
is_digit c = leb b'0' c && leb c b'9'

abbrev service : TotpService
service = record initial { secret = some rfc_secret; persisted = some [] }

-- " 287082"
abbrev typed : Text
typed = b' ' ∷ b'2' ∷ b'8' ∷ b'7' ∷ b'0' ∷ b'8' ∷ b'2' ∷ []

abbrev code : Text
code = b'2' ∷ b'8' ∷ b'7' ∷ b'0' ∷ b'8' ∷ b'2' ∷ []

generated : generate rfc_digest is_space is_digit 59 service ≡ ok code
unfolding generate code_now code_at hotp decimal pack_be unpack_be be_bytes be_value
generated = refl

accepted : verify rfc_digest is_space is_digit typed 59 true service ≡ (ok true, advance 1 service)
unfolding verify try_candidates accept strip fits code_at hotp decimal compare_digest pack_be
    unpack_be be_bytes be_value
accepted = refl

verify_replay_example :
    (secret : Bytes) × (counter : ℕ) × (some rfc_secret ≡ some secret)
    × (fits rfc_digest secret (strip rfc_digest is_space is_digit typed) counter ≡ ok true)
    × (counter ≤ 59 / totp_interval + 1)
    × (59 / totp_interval ≤ counter + 1)
    × (0 ≤ counter)
    × (advance 1 service ≡ advance counter service)
    × (verify rfc_digest is_space is_digit typed 59 true (advance 1 service)
        ≡ (ok false, advance 1 service))
verify_replay_example =
    Replay.verify_replay rfc_digest is_space is_digit typed 59 service (advance 1 service) accepted
