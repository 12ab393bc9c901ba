-- ===== src/Lib.antt =====
-- Ultimate Enigma: an encrypted messenger. This library models the parts of the program that
-- decide whether a message can be read, a secret recovered and an account opened, and proves what
-- makes them correct.
--
-- The parts and how they interact
--   - models/envelope.py: the binary formats of the packets, which services/encryption/ builds and
--     parses around what the double ratchet encrypts. Envelope (the type of a packet),
--     Envelope/Ratchet and Envelope/Pqc (one format each: `build`, `parse`), with the round trips
--     in the child RoundTrip of each.
--   - services/double_ratchet.py: `RatchetState`, one side of a conversation. DoubleRatchet is its
--     state and its store of skipped keys, DoubleRatchet/Handshake the key derivations, the starts
--     of a session and the ratchet step, DoubleRatchet/Messages `encrypt` and `decrypt`,
--     DoubleRatchet/Payload `_decrypt_with_key`. The proofs are in Store (the queue of the store),
--     Deliver (a receiver that knows its sender), Header, Sending, Agree, Skipped, OutOfOrder, Refuse and Rewind. A
--     method is an action of Action: it takes the
--     state and gives a result or an exception and the state that is left, also after an exception.
--     A key stands for its raw bytes, a guarded buffer for its content. X25519, HKDF, HMAC and the
--     random keys and nonces are arguments.
--     DoubleRatchet/Serialize is the dictionary that a state is stored as, with Hex and Decimal
--     for its texts, and Restore its round trip.
--   - services/ratchet_service.py: the storage of the states. RatchetService is the row of a friend,
--     the buffer of unwritten states and its flush, RatchetService/Session the start and the end of
--     a session and the messages; Buffer, Stored and Flush prove what the buffer does.
--     RatchetService/Locks is the locks of the friends as one thread acquires them, with Order,
--     Undo, Batch and Cleanup; Waiting and Orderly let any number of threads take turns, as a
--     relation of steps. JSON, Base64, AES-GCM and the answers of the database are arguments.
--   - crypto.py: the packets of the legacy strategy. Crypto has the packing, the derived keys and
--     AES-GCM, Crypto/Build `encrypt_message`, Crypto/Parse `decrypt_message` with its window, and
--     Crypto/Verify what it does with the inner packet. The proofs are in Header, Window, Inner,
--     RoundTrip and Readable. RSA, AES-GCM, HKDF, SHA-256 and HybridSigner are arguments.
--   - services/xchacha20_poly1305.py: the cipher that the double ratchet seals with. XChaCha has
--     HChaCha20 on words of 32 bits, with the masks of the source, and the class; the inner cipher
--     ChaCha20Poly1305 is an argument.
--   - services/shamir_service.py: Shamir's secret sharing over GF(256), for key recovery.
--     Shamir/Gf256 has the tables and the operations that look them up, Shamir the class. The
--     random coefficients are an argument. Field, Field/Poly, Field/Interpolation and
--     Field/Lagrange are the theory of interpolation over any finite field of characteristic two,
--     which Shamir/Gf256/ByteField instantiates with the bytes of the tables.
--   - models/trust_chain.py and services/trust_chain_service.py: Trust has the certificates and the
--     trust level, Trust/Check the pinned keys and the check of a signature, Trust/Service the
--     methods on the table of certificates, which stands for the database, and Trust/Delegation
--     the revocation by a delegate. Trust/Counted counts the certificates behind a trust level, and
--     Level, Revoked, Import, Issued and Cleared are the other proofs. The hybrid signature is an argument.
--   - key_manager.py: KeyStore has the rows of the secrets and database.py's encryption under a
--     password, KeyStore/Password `verify_password` over the lockout, KeyStore/Friends and
--     KeyStore/Change `change_password` on a connection with its commit and rollback. Secrets,
--     Keeps, Atomic, Changed and Renewed are the proofs. Argon2id, PBKDF2, AES-GCM, JSON, PEM and
--     the answers of the database, in a change of the password to the statements that write, are
--     arguments; a SELECT of the change succeeds.
--   - services/event_bus.py: EventBus, the subscriptions and `publish`; EventBus/Entries and
--     EventBus/Refine relate it to an abstract table of subscriptions.
--   - security/lockout.py: Lockout, the delays and the lockout after failed attempts, with its
--     state and its methods in Lockout/State. Lockout/Restart starts a manager again over the row
--     that was written. JSON and the answers of the database are arguments.
--   - services/totp_service.py: Totp and Totp/Code, the codes of the second factor.
--   - Python's own: Prelude (exceptions as values of `Result`, lists with Python's indices and
--     slices), Bytes (`struct` for one integer), Utf8 (the codec, with the errors of strict mode),
--     Dict (dictionaries by order of insertion), Bits (the laws of `^` and of a mask).
--
-- Conventions
--   - An exception is a value of `Error`. Its text is kept where the source tells cases apart by
--     it. A text is a list of code points. Times are natural numbers of seconds.
--   - Only the decimal text of a number runs on fuel, one more than the number, which has fewer
--     digits. Other loops are recursions on a list or on the number of turns left, and
--     that number is computed from the state as the source's condition reads it. The tables of
--     GF(256) are computed by the source's loops and looked up.
--   - A number in Python has no bound. Words of 32 bits are kept in bounds by the masks that the
--     source writes, and where `struct` refuses a number the model raises.
--
-- Not modelled: the windows and dialogs (views/, components/), the rest of the database and of the key
-- store, threads but for the locks of the ratchet service, and the operating system; logging has no effect on a state and is left out.
pub mod Prelude
pub mod Action
pub mod Bits
pub mod Bytes
pub mod Crypto
pub mod Decimal
pub mod Dict
pub mod DoubleRatchet
pub mod Envelope
pub mod EventBus
pub mod Field
pub mod Hex
pub mod KeyStore
pub mod Lockout
pub mod RatchetService
pub mod Shamir
pub mod Totp
pub mod Trust
pub mod Utf8
pub mod XChaCha
