-- ===== src/Locks/Shared.antt =====
-- Shared acquisitions of sylan/p3/lock/main.go.
use cmsc818e.Prelude.{
  ◌+◌, ℤ, false, List, [], ◌∷◌, Option, some, eqb_ℤ, Bool-cases, Option-cases, ◌≡◌, inl, inr, refl,
  ap, sym, ◌∙◌, ok,
}
use cmsc818e.Locks.{
  LockPath, is_closed, shared, take_lock, Table, put_path, mutex_of, take_entry, step_at, step_all,
  split, next_path, Server, acquire, acquire_in, acquire_path, make_maps, filter_path, reply,
  store_maps, put_rep, table_of, no_locks,
}
use cmsc818e.Locks.Entries.{put_path-cases}
use cmsc818e.Locks.Release.{IsPaired, put_rep_self}

abbrev pub NoWriters : Table → Type 0
NoWriters table = (q : LockPath) → is_closed (mutex_of (table q)) ≡ false

step_at-shared :
    (k : LockPath) (table : Table)
    → NoWriters table
    → (t : Table) × (step_at take_entry shared k table ≡ ok t) × NoWriters t
unfolding step_at take_entry take_lock
step_at-shared k table h =
    let m = record (mutex_of (table k)) { readers = (mutex_of (table k)).readers + 1 } in
    (
      put_path table k (some m),
      rw (h k) refl,
      λ q. elim (put_path-cases table k q (some m)) [
        | inl (same, e, new) ↦ ap (λ o. is_closed (mutex_of o)) new ∙ h k
        | inr (e, old) ↦ ap (λ o. is_closed (mutex_of o)) old ∙ h q
      ],
    )

step_all-shared :
    (path acc : LockPath) (names : List LockPath) (table : Table)
    → NoWriters table
    → (t : Table) × (step_all take_entry shared path acc names table ≡ ok t) × NoWriters t
unfolding step_all
step_all-shared path acc [] table h = (table, refl, h)
step_all-shared path acc (name ∷ names) table h =
    let next = next_path acc name in
    let (t, e, none_writes) = step_at-shared next table h in
    let (t', e', none_after) = step_all-shared path next names t none_writes in
    (t', rw e e', none_after)

-- No lock of any client is held for writing, or waited for by a writer.
abbrev pub IsShared : Server → Type 0
IsShared s = (r : ℤ) → NoWriters (table_of (s.m_lock r)) × NoWriters (table_of (s.t_lock r))

put_rep-NoWriters :
    (maps : ℤ → Option Table) (rep r : ℤ) (t : Table)
    → NoWriters t
    → NoWriters (table_of (maps r))
    → NoWriters (table_of (put_rep maps rep (some t) r))
put_rep-NoWriters maps rep r t h old q = elim (Bool-cases (eqb_ℤ rep r)) [
  | inl e ↦ rw e (h q)
  | inr e ↦ rw e (old q)
]

store_maps-IsShared :
    (rep : ℤ) (m t : Table) (s : Server)
    → NoWriters m
    → NoWriters t
    → IsShared s
    → IsShared (store_maps rep m t s)
store_maps-IsShared rep m t s hm ht h r =
    (put_rep-NoWriters s.m_lock rep r m hm (h r).0, put_rep-NoWriters s.t_lock rep r t ht (h r).1)

acquire_in-shared :
    (rep : ℤ) (path : LockPath) (s : Server) {m t : Table}
    → s.m_lock rep ≡ some m
    → s.t_lock rep ≡ some t
    → IsShared s
    → (s' : Server) × (acquire_in shared rep path s ≡ ok (reply path shared rep, s')) × IsShared s'
unfolding acquire_in
acquire_in-shared rep path s {m} {t} hm ht h =
    let (t', e, none_t) =
      step_at-shared path t
        (λ q. ap (λ o. is_closed (mutex_of (table_of o q))) (sym ht) ∙ (h rep).1 q) in
    let (m', e', none_m) =
      step_all-shared path [] (split path) m
        (λ q. ap (λ o. is_closed (mutex_of (table_of o q))) (sym hm) ∙ (h rep).0 q) in
    (
      store_maps rep m' t' s,
      rw ht (rw hm (rw e (rw e' refl))),
      store_maps-IsShared rep m' t' s none_m none_t h,
    )

-- While nothing is held for writing and no writer waits, a shared Acquire of an absolute path, with no
-- other call between its steps, returns, and still nothing is held for writing or waited for: readers
-- never wait for each other.
pub acquire-shared :
    (input p : LockPath) (rep : ℤ) (s : Server)
    → IsPaired s
    → IsShared s
    → filter_path input ≡ some p
    → (s' : Server) × (acquire input shared rep s ≡ ok (reply p shared rep, s')) × IsShared s'
unfolding acquire acquire_path make_maps
acquire-shared input p rep s paired h e = elim (Option-cases (s.m_lock rep)) [
  | inl fresh ↦
      let made = store_maps rep no_locks no_locks s in
      let (s', got, after) =
        acquire_in-shared rep p made (put_rep_self s.m_lock rep (some no_locks))
          (put_rep_self s.t_lock rep (some no_locks))
          (store_maps-IsShared rep no_locks no_locks s (λ q. refl) (λ q. refl) h) in
      (s', rw e (rw fresh got), after)
  | inr (m, hm) ↦ elim (Option-cases (s.t_lock rep)) [
    | inl no_t ↦ let no_m = (paired rep).1 no_t in cc
    | inr (t, ht) ↦
        let (s', got, after) = acquire_in-shared rep p s hm ht h in (s', rw e (rw hm got), after)
  ]
]
