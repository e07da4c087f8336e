-- ===== src/Locks/Examples.antt =====
-- Calls of the lock server at concrete paths.
use cmsc818e.Prelude.{
  pos, true, false, [], ◌∷◌, none, some, ◌≡◌, ◌≢◌, ◌⊎◌, arith, refl, inr, Result, ok, blocked,
}
use cmsc818e.Locks.{
  LockPath, shared, exclusive, Server, Answer, reply, acquire, release, filter_path, take_entry,
  take_lock,
}
use cmsc818e.Locks.Release.{acquire-release, IsPaired, SameLocks}
use cmsc818e.Locks.Exclude.{Waits, acquire-excludes}
use cmsc818e.Locks.Shared.{acquire-shared, IsShared}
use cmsc818e.Locks.Paired.{acquire-Waits}

-- "/a/" and "/a/b"
abbrev dir_path : LockPath
dir_path = 47 ∷ 97 ∷ 47 ∷ []

abbrev file_path : LockPath
file_path = 47 ∷ 97 ∷ 47 ∷ 98 ∷ []

abbrev empty_server : Server
empty_server = record { m_lock = λ r. none; t_lock = λ r. none }

empty_server-IsPaired : IsPaired empty_server
empty_server-IsPaired r = ((λ h. h), (λ h. h))

abbrev state_of : Result (Answer × Server) → Server
state_of (ok (a, s)) = s
state_of _ = empty_server

abbrev after_dir : Server
unfolding acquire
after_dir = state_of (acquire dir_path exclusive (pos 7) empty_server)

dir-acquired :
    acquire dir_path exclusive (pos 7) empty_server
    ≡ ok (reply (47 ∷ 97 ∷ []) exclusive (pos 7), after_dir)
unfolding acquire take_entry take_lock
dir-acquired = refl

acquire-release_example :
    (t : Server) × (release dir_path exclusive (pos 7) after_dir
      ≡ ok (reply (47 ∷ 97 ∷ []) exclusive (pos 7), t))
    × SameLocks t empty_server
acquire-release_example =
    acquire-release dir_path exclusive (pos 7) empty_server empty_server-IsPaired dir-acquired

filter-dir : filter_path dir_path ≡ some (47 ∷ 97 ∷ [])
unfolding filter_path
filter-dir = refl

filter-file : filter_path file_path ≡ some file_path
unfolding filter_path
filter-file = refl

acquire-excludes_example : acquire file_path shared (pos 7) after_dir ≡ blocked
acquire-excludes_example =
    acquire-excludes dir_path file_path (47 ∷ 97 ∷ []) file_path shared (pos 7) empty_server
      (97, [], refl, λ h. omega (arith, h)) (inr (98 ∷ [], refl)) filter-dir filter-file
      dir-acquired

acquire-shared_example :
    (s : Server) × (acquire file_path shared (pos 7) empty_server
      ≡ ok (reply file_path shared (pos 7), s))
    × IsShared s
acquire-shared_example =
    acquire-shared file_path file_path (pos 7) empty_server empty_server-IsPaired
      (λ r. ((λ q. refl), (λ q. refl))) filter-file

acquire-Waits_example :
    Waits (acquire dir_path exclusive (pos 7) empty_server)
    × ((s : Server) (a : Answer)
        → (acquire dir_path exclusive (pos 7) empty_server ≡ ok (a, s))
          ⊎ (release dir_path exclusive (pos 7) empty_server ≡ ok (a, s))
        → IsPaired s)
acquire-Waits_example = acquire-Waits dir_path exclusive (pos 7) empty_server empty_server-IsPaired

-- One reader has a lock, and a writer waits for it: the next reader waits for the writer.
reader-waits : take_lock shared (record { readers = 1; writing = false; waiting = true }) ≡ blocked
unfolding take_lock
reader-waits = refl

-- An exclusive lock of the root does not keep a shared lock of "/a" from being taken.
root-shared :
    acquire
      (47 ∷ 97 ∷ [])
      shared
      (pos 7)
      (state_of (acquire (47 ∷ []) exclusive (pos 7) empty_server))
    ≢ blocked
unfolding acquire take_entry take_lock
root-shared h = cc

-- An exclusive Acquire of "//" waits for itself.
double_slash-stuck : acquire (47 ∷ 47 ∷ []) exclusive (pos 7) empty_server ≡ blocked
unfolding acquire take_entry take_lock
double_slash-stuck = refl
