-- ===== src/RatchetService/Locks.antt =====
-- services/ratchet_service.py: the locks of the friends. A lock is reentrant; a thread that waits for
-- a lock of another thread gives up at the timeout. `lower` is `str.lower`, by Python's tables of
-- characters, `now` what `time.monotonic()` returns.
pub mod View
pub mod Order
pub mod Undo
pub mod Batch
pub mod Waiting
pub mod Kept
pub mod Cleanup
pub mod Orderly
use ultimate_enigma.Prelude.{
  ℕ, ◌+◌, ◌-◌, List, [], ◌∷◌, ◌++◌, length, Bool, true, false, ◌&&◌, ◌||◌, ltb, ◌==◌, if◌then◌else◌,
  Option, none, some, Result, ok, err, Error,
}
use ultimate_enigma.Action.{Action, lift, give, get, put, ◌>>=◌, ◌>>◌}
use ultimate_enigma.Bytes.{same_bytes}
use ultimate_enigma.Utf8.{Text}
use ultimate_enigma.Dict.{lookup, insert, remove}
use ultimate_enigma.RatchetService.{friend_names}

-- An RLock: the thread that holds it, and how often.
pub record Lock : Type 0 where
  pub owner : Option ℕ
  pub depth : ℕ

abbrev pub free : Lock
free = record { owner = none; depth = 0 }

-- The two dictionaries of the class.
pub record Locks : Type 0 where
  pub friend_locks : List (Text × Lock)
  pub timestamps : List (Text × ℕ)

-- Whether the thread holds the lock.
abbrev pub owns : ℕ → Lock → Bool
owns thread lock = elim lock.owner [ none ↦ false | some other ↦ other == thread ]

abbrev pub is_free : Lock → Bool
is_free lock = elim lock.owner [ none ↦ true | some other ↦ false ]

abbrev pub lock_or_free : Option Lock → Lock
lock_or_free none = free
lock_or_free (some lock) = lock

-- The lock of a friend; one that is not there yet is made free.
unfoldable pub friend_lock : Text → Locks → Lock
unfolding friend_names
friend_lock friend_name s = lock_or_free (lookup friend_names friend_name s.friend_locks)

unfoldable pub get_friend_lock : ℕ → Text → Locks → Locks
unfolding friend_names
get_friend_lock now friend_name s = elim (lookup friend_names friend_name s.friend_locks) [
  | some lock ↦ s
  | none ↦ record s {
    friend_locks = insert friend_names friend_name free s.friend_locks;
    timestamps = insert friend_names friend_name now s.timestamps;
  }
]

unfoldable pub set_lock : Text → Lock → Locks → Locks
unfolding friend_names
set_lock friend_name lock s = record s {
  friend_locks = insert friend_names friend_name lock s.friend_locks;
}

-- `lock.acquire(timeout=timeout)`
unfoldable pub acquire : ℕ → Text → Locks → Bool × Locks
acquire thread friend_name s =
    let lock = friend_lock friend_name s in
    if is_free lock || owns thread lock
    then (true, set_lock friend_name (record { owner = some thread; depth = lock.depth + 1 }) s)
    else (false, s)

-- The lock after one release.
abbrev pub released : Lock → Lock
released lock = if lock.depth == 1 then free else record lock { depth = lock.depth - 1 }

-- `lock.release()`
unfoldable pub release : ℕ → Text → Action Locks (Unit {0})
release thread friend_name s =
    let lock = friend_lock friend_name s in
    if owns thread lock
    then (ok tt, set_lock friend_name (released lock) s)
    else (err (Error.runtime_error "cannot release un-acquired lock"), s)

unfoldable pub acquire_friend_lock : ℕ → ℕ → Text → Action Locks (Unit {0})
acquire_friend_lock now thread friend_name s =
    let (acquired, s') = acquire thread friend_name (get_friend_lock now friend_name s) in
    if acquired then (ok tt, s') else (err Error.concurrency_error, s')

-- `<` on text.
unfoldable pub text_lt : Text → Text → Bool
text_lt [] [] = false
text_lt [] (y ∷ ys) = true
text_lt (x ∷ xs) [] = false
text_lt (x ∷ xs) (y ∷ ys) = ltb x y || (x == y && text_lt xs ys)

-- `<` on the keys `(n.lower(), n)`.
unfoldable pub name_lt : (Text → Text) → Text → Text → Bool
name_lt lower a b = text_lt (lower a) (lower b) || (same_bytes (lower a) (lower b) && text_lt a b)

unfoldable pub insert_name : (Text → Text) → Text → List Text → List Text
insert_name lower name [] = name ∷ []
insert_name lower name (other ∷ names) =
    let rest = insert_name lower name names in
    if same_bytes name other
    then other ∷ names
    else if name_lt lower name other
    then name ∷ other ∷ names
    else other ∷ rest

-- `sorted(set(friend_names), key=...)`
unfoldable pub unique_names : (Text → Text) → List Text → List Text
unique_names lower [] = []
unique_names lower (name ∷ names) = insert_name lower name (unique_names lower names)

-- `for lock in reversed(acquired): lock.release()`, of the locks with the last one first.
unfoldable pub release_all : ℕ → List Text → Action Locks (Unit {0})
release_all thread [] = give tt
release_all thread (name ∷ acquired) = do release thread name; release_all thread acquired

-- The loop; `acquired` has the last lock first.
unfoldable pub acquire_loop : ℕ → ℕ → List Text → List Text → Action Locks (Unit {0})
acquire_loop now thread [] acquired s = (ok tt, s)
acquire_loop now thread (name ∷ names) acquired s =
    let (success, s') = acquire thread name (get_friend_lock now name s) in
    let next = acquire_loop now thread names (name ∷ acquired) s' in
    let undo = (release_all thread acquired >> lift (err Error.concurrency_error)) s' in
    elim success [ true ↦ next | false ↦ undo ]

-- The names stand for the locks that the source returns.
unfoldable pub acquire_friend_locks_ordered :
    (Text → Text) → ℕ → ℕ → List Text → Action Locks (List Text)
acquire_friend_locks_ordered lower now thread names = do
  acquire_loop now thread (unique_names lower names) []
  give (unique_names lower names)
