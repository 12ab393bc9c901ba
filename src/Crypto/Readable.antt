-- ===== src/Crypto/Readable.antt =====
-- Every message that `decrypt_message` of crypto.py shows is readable at the time of reading.
use ultimate_enigma.Prelude.{ℕ, ◌+◌, ◌≤◌, Option, none, some}
use ultimate_enigma.Bytes.{Bytes}

-- A message that destructs is read before its end, any other one within a minute of its time.
abbrev pub Fresh : Option ℕ → ℕ → ℕ → Type 0
Fresh none sent now = (now ≤ sent + 60) × (sent ≤ now + 60)
Fresh (some seconds) sent now = now ≤ sent + seconds
