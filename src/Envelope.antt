-- ===== src/Envelope.antt =====
-- models/envelope.py: the binary wire formats of the Double Ratchet and of the post-quantum
-- hybrid messages. The two formats have a module each; a packet is told from its first byte.
pub mod Wire
pub mod Ratchet
pub mod Pqc
mod Tests
use ultimate_enigma.Prelude.{[], ◌∷◌, ◌==◌, if◌then◌else◌, Option, none, some}
use ultimate_enigma.Bytes.{Bytes}
use Wire.{ratchet_envelope_magic, pqc_envelope_magic}

pub data EnvelopeType : Type 0 where
  ratchet pqc : EnvelopeType

unfoldable pub identify_envelope_type : Bytes → Option EnvelopeType
identify_envelope_type [] = none
identify_envelope_type (magic ∷ rest) =
    if magic == ratchet_envelope_magic
    then some ratchet
    else if magic == pqc_envelope_magic
    then some pqc
    else none
