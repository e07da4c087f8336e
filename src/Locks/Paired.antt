-- ===== src/Locks/Paired.antt =====
-- The two maps of a client of sylan/p3/lock/main.go.
use cmsc818e.Prelude.{
  ℤ, [], Option, none, some, eqb_ℤ, Bool-cases, Option-cases, refl, ◌≡◌, ◌⊎◌, inl, inr, ap, ok,
  and_then-eq-ok, ok-injective, deref,
}
use mathlib.Core.Path.{subst}
use cmsc818e.Locks.{
  LockPath, LockType, Table, Entry, take_entry, give_entry, step_at, step_all, split, Server,
  Answer, acquire, acquire_in, acquire_path, make_maps, filter_path, store_maps, no_locks, release,
  release_path, release_map, release_in, table_of, reply, not_a_path,
}
use cmsc818e.Locks.Release.{IsPaired, put_rep_self}
use cmsc818e.Locks.Exclude.{Waits, step_at-cases, step_all-cases}

store_maps-IsPaired :
    (rep : ℤ) (m t : Table) (s : Server) → IsPaired s → IsPaired (store_maps rep m t s)
store_maps-IsPaired rep m t s h r = elim (Bool-cases (eqb_ℤ rep r)) [
  | inl e ↦ rw e ((λ no. cc), (λ no. cc))
  | inr e ↦ rw e (h r)
]

make_maps-IsPaired :
    (rep : ℤ) (o : Option Table) (s : Server) → IsPaired s → IsPaired (make_maps rep o s)
unfolding make_maps
make_maps-IsPaired rep none s h = store_maps-IsPaired rep no_locks no_locks s h
make_maps-IsPaired rep (some t) s h = h

acquire_path-IsPaired :
    (mode : LockType) (rep : ℤ) (found : Option LockPath) (s : Server) {a : Answer} {s' : Server}
    → IsPaired s
    → acquire_path mode rep found s ≡ ok (a, s')
    → IsPaired s'
unfolding acquire_path acquire_in
acquire_path-IsPaired mode rep none s paired h =
    subst IsPaired (ap (λ x. x.1) (ok-injective h)) paired
acquire_path-IsPaired mode rep (some path) s paired h =
    let made = make_maps rep (s.m_lock rep) s in
    let (t, ht, h1) = and_then-eq-ok (deref (made.t_lock rep)) _ h in
    let (m, hm, h2) = and_then-eq-ok (deref (made.m_lock rep)) _ h1 in
    let (t', took, h3) = and_then-eq-ok (step_at take_entry mode path t) _ h2 in
    let (m', all, h4) = and_then-eq-ok (step_all take_entry mode path [] (split path) m) _ h3 in
    subst IsPaired (ap (λ x. x.1) (ok-injective h4))
      (store_maps-IsPaired rep m' t' made (make_maps-IsPaired rep (s.m_lock rep) s paired))

acquire_in-Waits :
    (mode : LockType) (rep : ℤ) (path : LockPath) (s : Server) {m t : Table}
    → s.m_lock rep ≡ some m
    → s.t_lock rep ≡ some t
    → Waits (acquire_in mode rep path s)
unfolding acquire_in
acquire_in-Waits mode rep path s {m} {t} hm ht = elim (step_at-cases mode path t) [
  | inl e ↦ inl (rw ht (rw hm (rw e refl)))
  | inr (t', e) ↦ elim (step_all-cases mode path [] (split path) m) [
    | inl e' ↦ inl (rw ht (rw hm (rw e (rw e' refl))))
    | inr (m', e') ↦
        inr ((reply path mode rep, store_maps rep m' t' s), rw ht (rw hm (rw e (rw e' refl))))
  ]
]

release_in-IsPaired :
    (mode : LockType) (rep : ℤ) (path : LockPath) (o : Entry) (t : Table) (s : Server) {a : Answer}
    {s' : Server}
    → IsPaired s
    → release_in mode rep path o t s ≡ ok (a, s')
    → IsPaired s'
unfolding release_in
release_in-IsPaired mode rep path none t s paired h =
    subst IsPaired (ap (λ x. x.1) (ok-injective h)) paired
release_in-IsPaired mode rep path (some lock) t s paired h =
    let (t', gave, h1) = and_then-eq-ok (step_at give_entry mode path t) _ h in
    let (m', all, h2) =
      and_then-eq-ok (step_all give_entry mode path [] (split path) (table_of (s.m_lock rep))) _
        h1 in
    subst IsPaired (ap (λ x. x.1) (ok-injective h2)) (store_maps-IsPaired rep m' t' s paired)

release_map-IsPaired :
    (mode : LockType) (rep : ℤ) (path : LockPath) (o : Option Table) (s : Server) {a : Answer}
    {s' : Server}
    → IsPaired s
    → release_map mode rep path o s ≡ ok (a, s')
    → IsPaired s'
unfolding release_map
release_map-IsPaired mode rep path none s paired h =
    subst IsPaired (ap (λ x. x.1) (ok-injective h)) paired
release_map-IsPaired mode rep path (some t) s paired h =
    release_in-IsPaired mode rep path (t path) t s paired h

release_path-IsPaired :
    (mode : LockType) (rep : ℤ) (found : Option LockPath) (s : Server) {a : Answer} {s' : Server}
    → IsPaired s
    → release_path mode rep found s ≡ ok (a, s')
    → IsPaired s'
unfolding release_path
release_path-IsPaired mode rep none s paired h =
    subst IsPaired (ap (λ x. x.1) (ok-injective h)) paired
release_path-IsPaired mode rep (some path) s paired h =
    release_map-IsPaired mode rep path (s.t_lock rep) s paired h

-- The maps that an Acquire finds or makes are both there, and to take a lock may wait but not panic.
acquire_path-Waits :
    (mode : LockType) (rep : ℤ) (found : Option LockPath) (s : Server)
    → IsPaired s
    → Waits (acquire_path mode rep found s)
unfolding acquire_path make_maps
acquire_path-Waits mode rep none s paired = inr ((not_a_path, s), refl)
acquire_path-Waits mode rep (some path) s paired = elim (Option-cases (s.m_lock rep)) [
  | inl fresh ↦ rw fresh (
      acquire_in-Waits mode rep path (store_maps rep no_locks no_locks s)
        (put_rep_self s.m_lock rep (some no_locks)) (put_rep_self s.t_lock rep (some no_locks)))
  | inr (m, hm) ↦ elim (Option-cases (s.t_lock rep)) [
    | inl no_t ↦ let no_m = (paired rep).1 no_t in cc
    | inr (t, ht) ↦ rw hm (acquire_in-Waits mode rep path s hm ht)
  ]
]

-- A server whose clients are in both maps or in neither: an Acquire returns or waits, and never
-- panics, and each client is still in both maps or in neither after an Acquire or a Release that
-- returns.
pub acquire-Waits :
    (input : LockPath) (mode : LockType) (rep : ℤ) (s : Server)
    → IsPaired s
    → Waits (acquire input mode rep s)
      × ((s' : Server) (a : Answer)
          → (acquire input mode rep s ≡ ok (a, s')) ⊎ (release input mode rep s ≡ ok (a, s'))
          → IsPaired s')
unfolding acquire release
acquire-Waits input mode rep s paired = (
  acquire_path-Waits mode rep (filter_path input) s paired,
  λ s' a h. elim h [
    | inl acquired ↦ acquire_path-IsPaired mode rep (filter_path input) s paired acquired
    | inr released ↦ release_path-IsPaired mode rep (filter_path input) s paired released
  ],
)
