-- ===== src/Locks.antt =====
-- The lock server of sylan/p3/lock/main.go. A string is the list of its bytes. The package variables
-- mLock and tLock are a record; a map is a function into Option. A call runs to its end: cLock, which
-- it holds only between two steps of its own, is left out, and a call that has to wait is `blocked`.
-- What goes on between two steps of a call is not modelled.
pub mod Entries
pub mod Paths
pub mod Release
pub mod Exclude
pub mod Shared
pub mod Paired
mod Examples
use cmsc818e.Prelude.{
  ℕ, zero, suc, ◌+◌, ◌-◌, ℤ, Bool, true, false, not, ◌&&◌, ◌||◌, List, [], ◌∷◌, ◌++◌, Option, none,
  some, ◌==◌, eqb_ℤ, if◌then◌else◌, length, Result, ok, panic, blocked, and_then, deref,
}

abbrev pub LockPath : Type 0
LockPath = List ℕ

-- '/'
abbrev pub slash : ℕ
slash = 47

abbrev pub eqb_path : LockPath → LockPath → Bool
eqb_path [] [] = true
eqb_path (x ∷ xs) (y ∷ ys) = x == y && eqb_path xs ys
eqb_path _ _ = false

-- sync.RWMutex: the number of its readers, whether a writer holds it, and whether a Lock of another
-- call waits for it.
pub record RwMutex : Type 0 where
  pub readers : ℕ
  pub writing : Bool
  pub waiting : Bool

-- &sync.RWMutex{}
abbrev pub free : RwMutex
free = record { readers = 0; writing = false; waiting = false }

pub data LockType : Type 0 where
  shared exclusive : LockType

-- A writer has the lock, or waits for it and goes first.
abbrev pub is_closed : RwMutex → Bool
is_closed m = m.waiting || m.writing

-- RLock and Lock wait for a writer, also for one that waits itself; Lock waits for the readers too.
unfoldable pub take_lock : LockType → RwMutex → Result RwMutex
take_lock shared m = if is_closed m then blocked else ok (record m { readers = m.readers + 1 })
take_lock exclusive m =
    if is_closed m || not (m.readers == 0) then blocked else ok (record m { writing = true })

-- RUnlock and Unlock of a lock that is not held so are fatal errors.
unfoldable pub give_lock : LockType → RwMutex → Result RwMutex
give_lock shared m = if m.readers == 0 then panic else ok (record m { readers = m.readers - 1 })
give_lock exclusive m = if m.writing then ok (record m { writing = false }) else panic

-- What a map of locks has at a path.
abbrev pub Entry : Type 0
Entry = Option RwMutex

abbrev pub Table : Type 0
Table = LockPath → Entry

abbrev pub put_path : Table → LockPath → Option RwMutex → Table
put_path m k v j = if eqb_path k j then v else m j

abbrev pub put_rep : (ℤ → Option Table) → ℤ → Option Table → ℤ → Option Table
put_rep m k v j = if eqb_ℤ k j then v else m j

-- An entry of a map of locks, which is made where it is missing.
abbrev pub mutex_of : Option RwMutex → RwMutex
mutex_of none = free
mutex_of (some m) = m

-- The entry of a map after the lock in it was taken, and after it was given back; nil is a panic.
unfoldable pub take_entry : LockType → Entry → Result Entry
take_entry mode o = and_then (take_lock mode (mutex_of o)) (λ m. ok (some m))

unfoldable pub give_entry : LockType → Entry → Result Entry
give_entry mode o = and_then (deref o) (λ m. and_then (give_lock mode m) (λ n. ok (some n)))

-- What a call does with the entry of a map at k, be it take_entry or give_entry.
unfoldable pub step_at :
    (LockType → Entry → Result Entry) → LockType → LockPath → Table → Result Table
step_at step mode k table = and_then (step mode (table k)) (λ o. ok (put_path table k o))

-- in[:len(in)-1], if in[len(in)-1] == '/'
unfoldable pub drop_slash : ℕ → LockPath → LockPath
drop_slash c [] = if c == slash then [] else c ∷ []
drop_slash c (d ∷ s) = c ∷ drop_slash d s

-- The path without a last slash, none where it does not start with one.
unfoldable pub filter_path : LockPath → Option LockPath
unfolding drop_slash
filter_path [] = none
filter_path (c ∷ s) = if c == slash then some (drop_slash c s) else none

abbrev pub cons_head : ℕ → List LockPath → List LockPath
cons_head c [] = (c ∷ []) ∷ []
cons_head c (w ∷ ws) = (c ∷ w) ∷ ws

-- strings.Split(path, "/")
abbrev pub split : LockPath → List LockPath
split [] = [] ∷ []
split (c ∷ s) = let rest = split s in if c == slash then [] ∷ rest else cons_head c rest

-- accPath in the next round of the loop.
abbrev pub next_path : LockPath → LockPath → LockPath
next_path acc name = if length acc == 1 then acc ++ name else acc ++ slash ∷ name

-- The lock is exclusive only at the path itself.
abbrev pub mode_at : LockType → (path acc : LockPath) → LockType
mode_at shared path acc = shared
mode_at exclusive path acc = if eqb_path acc path then exclusive else shared

-- The loop over the names of the path, of Acquire and of Release.
unfoldable pub step_all :
    (LockType → Entry → Result Entry)
    → LockType
    → (path acc : LockPath) → List LockPath
    → Table
    → Result Table
unfolding step_at
step_all step mode path acc [] table = ok table
step_all step mode path acc (name ∷ names) table =
    let next = next_path acc name in
    and_then (step_at step (mode_at mode path next) next table)
      (λ table'. step_all step mode path next names table')

pub record Server : Type 0 where
  pub m_lock : ℤ → Option Table
  pub t_lock : ℤ → Option Table

pub data Answer : Type 0 where
  reply : (path : LockPath) → LockType → (rep_id : ℤ) → Answer
  not_a_path lock_not_exist : Answer

abbrev pub no_locks : Table
no_locks k = none

-- The maps of a client once their locks were taken or given back.
abbrev pub store_maps : ℤ → (m t : Table) → Server → Server
store_maps rep m t s = record {
  m_lock = put_rep s.m_lock rep (some m);
  t_lock = put_rep s.t_lock rep (some t);
}

-- Both maps of a client, which the first call makes.
unfoldable pub make_maps : ℤ → Option Table → Server → Server
make_maps rep (some table) s = s
make_maps rep none s = store_maps rep no_locks no_locks s

unfoldable pub acquire_in : LockType → ℤ → LockPath → Server → Result (Answer × Server)
unfolding take_entry step_at step_all
acquire_in mode rep path s = and_then (deref (s.t_lock rep)) (λ t.
    and_then (deref (s.m_lock rep)) (λ m. and_then (step_at take_entry mode path t) (λ t'.
      and_then (step_all take_entry mode path [] (split path) m)
        (λ m'. ok (reply path mode rep, store_maps rep m' t' s)))))

unfoldable pub acquire_path : LockType → ℤ → Option LockPath → Server → Result (Answer × Server)
unfolding make_maps acquire_in
acquire_path mode rep none s = ok (not_a_path, s)
acquire_path mode rep (some path) s = acquire_in mode rep path (make_maps rep (s.m_lock rep) s)

unfoldable pub acquire : LockPath → LockType → ℤ → Server → Result (Answer × Server)
unfolding filter_path acquire_path
acquire input mode rep s = acquire_path mode rep (filter_path input) s

abbrev pub table_of : Option Table → Table
table_of none = no_locks
table_of (some table) = table

-- Release once the map of the client, and then the lock in it, was found.
unfoldable pub release_in :
    LockType → ℤ → LockPath → Option RwMutex → Table → Server → Result (Answer × Server)
unfolding give_entry step_at step_all
release_in mode rep path none t s = ok (lock_not_exist, s)
release_in mode rep path (some lock) t s = and_then (step_at give_entry mode path t) (λ t'.
    and_then (step_all give_entry mode path [] (split path) (table_of (s.m_lock rep)))
      (λ m'. ok (reply path mode rep, store_maps rep m' t' s)))

unfoldable pub release_map :
    LockType → ℤ → LockPath → Option Table → Server → Result (Answer × Server)
unfolding release_in
release_map mode rep path none s = ok (lock_not_exist, s)
release_map mode rep path (some t) s = release_in mode rep path (t path) t s

unfoldable pub release_path : LockType → ℤ → Option LockPath → Server → Result (Answer × Server)
unfolding release_map
release_path mode rep none s = ok (not_a_path, s)
release_path mode rep (some path) s = release_map mode rep path (s.t_lock rep) s

unfoldable pub release : LockPath → LockType → ℤ → Server → Result (Answer × Server)
unfolding filter_path release_path
release input mode rep s = release_path mode rep (filter_path input) s
