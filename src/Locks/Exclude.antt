-- ===== src/Locks/Exclude.antt =====
-- What an exclusive lock of sylan/p3/lock/main.go keeps others from.
use cmsc818e.Prelude.{
  ℕ, ◌+◌, ℤ, true, false, not, ◌||◌, List, [], ◌∷◌, ◌++◌, some, ◌==◌, if◌then◌else◌, Bool-cases,
  ◌≡◌, ◌⊎◌, inl, inr, refl, ap, sym, ◌∙◌, Result, ok, blocked, and_then-eq-ok, ok-injective, deref,
  arith,
}
use cmsc818e.Locks.{
  LockPath, slash, is_closed, LockType, shared, exclusive, take_lock, Table, Entry, put_path,
  mutex_of, take_entry, step_at, step_all, split, next_path, mode_at, Server, Answer, acquire,
  acquire_in, acquire_path, make_maps, filter_path, store_maps,
}
use cmsc818e.Locks.Entries.{modes_at, fold, step_all-fold, eqb_path_self}
use cmsc818e.Locks.Paths.{
  IsProper, after, after-split, split-cons, split-append, modes_at-after, append_nil,
}
use cmsc818e.Locks.Release.{held_by, writing-stuck, put_rep_self}

abbrev pub Waits : {A : Type 0} → Result A → Type 0
Waits {A} r = (r ≡ blocked) ⊎ ((a : A) × (r ≡ ok a))

-- A lock is waited for or got: taking it never panics.
take_entry-cases : (mode : LockType) (o : Entry) → Waits (take_entry mode o)
unfolding take_entry take_lock
take_entry-cases shared o = elim (Bool-cases (is_closed (mutex_of o))) [
  | inl e ↦ inl (rw e refl)
  | inr e ↦ inr (some (record (mutex_of o) { readers = (mutex_of o).readers + 1 }), rw e refl)
]
take_entry-cases exclusive o =
    elim (Bool-cases (is_closed (mutex_of o) || not ((mutex_of o).readers == 0))) [
      | inl e ↦ inl (rw e refl)
      | inr e ↦ inr (some (record (mutex_of o) { writing = true }), rw e refl)
    ]

pub step_at-cases :
    (mode : LockType) (k : LockPath) (table : Table) → Waits (step_at take_entry mode k table)
unfolding step_at
step_at-cases mode k table = elim (take_entry-cases mode (table k)) [
  | inl e ↦ inl (rw e refl)
  | inr (o, e) ↦ inr (put_path table k o, rw e refl)
]

pub step_all-cases :
    (mode : LockType) (path acc : LockPath) (names : List LockPath) (table : Table)
    → Waits (step_all take_entry mode path acc names table)
unfolding step_all
step_all-cases mode path acc [] table = inr (table, refl)
step_all-cases mode path acc (name ∷ names) table =
    let next = next_path acc name in
    elim (step_at-cases (mode_at mode path next) next table) [
      | inl e ↦ inl (rw e refl)
      | inr (t, e) ↦ rw e (step_all-cases mode path next names t)
    ]

take_entry-exclusive :
    (o : Entry) {o' : Entry}
    → take_entry exclusive o ≡ ok o'
    → o' ≡ held_by (mutex_of o).readers true
unfolding take_entry take_lock
take_entry-exclusive o h =
    elim (Bool-cases (is_closed (mutex_of o) || not ((mutex_of o).readers == 0))) [
      | inl e ↦ let no = rw e at h in cc
      | inr e ↦
          let unwaited : (mutex_of o).waiting ≡ false = ground arith in
          sym (ok-injective (rw e at h))
          ∙ ap (λ v. some (record (mutex_of o) { writing = true; waiting = v })) unwaited
    ]

-- The path and the paths below it.
abbrev pub IsBelow : (q p : LockPath) → Type 0
IsBelow q p = (q ≡ p) ⊎ ((rest : LockPath) × (q ≡ p ++ slash ∷ rest))

-- The loop over the names of a path below p takes the lock at p.
pub modes_at-below :
    (p q : LockPath) (mode : LockType)
    → IsProper p
    → IsBelow q p
    → (modes : List LockType) × (modes_at p mode q [] (split q) ≡ mode_at mode q p ∷ modes)
modes_at-below p q mode proper below =
    let (w, ws, names) = split-cons p in
    let reaches : after [] (w ∷ ws) ≡ p = ap (after []) (sym names) ∙ after-split p proper in
    elim below [
      | inl same ↦
          let (modes, e) = modes_at-after p mode q [] ws w [] reaches in
          let all : split q ≡ w ∷ ws ++ [] = ap split same ∙ names ∙ sym (append_nil (w ∷ ws)) in
          (modes, ap (modes_at p mode q []) all ∙ e)
      | inr (rest, under) ↦
          let (modes, e) = modes_at-after p mode q [] ws w (split rest) reaches in
          let all : split q ≡ w ∷ ws ++ split rest =
            ap split under ∙ split-append p rest ∙ ap (λ r. r ++ split rest) names in
          (modes, ap (modes_at p mode q []) all ∙ e)
    ]

-- Once the loop of an exclusive acquisition has ended, the lock at the path is held for writing.
pub step_all-writes :
    (p : LockPath) (table : Table) {table' : Table}
    → IsProper p
    → step_all take_entry exclusive p [] (split p) table ≡ ok table'
    → (r : ℕ) × (table' p ≡ held_by r true)
step_all-writes p table {table'} proper h =
    let (modes, e) = modes_at-below p p exclusive proper (inl refl) in
    let own : mode_at exclusive p p ≡ exclusive =
      ap (λ b. if b then exclusive else shared) (eqb_path_self p) in
    let taken : fold take_entry (exclusive ∷ modes) (table p) ≡ ok (table' p) =
      ap (λ m. fold take_entry (m ∷ modes) (table p)) (sym own)
      ∙ ap (λ ms. fold take_entry ms (table p)) (sym e)
      ∙ step_all-fold take_entry exclusive p [] (split p) table h p in
    let (o, first, rest) = and_then-eq-ok (take_entry exclusive (table p)) _ taken in
    let writes = take_entry-exclusive (table p) first in
    (
      (mutex_of (table p)).readers,
      (writing-stuck modes _ (ap (fold take_entry modes) (sym writes) ∙ rest)).1,
    )

-- While the lock at p is held for writing, no loop at or below p ends.
pub step_all-stuck :
    (p q : LockPath) (mode : LockType) (table : Table) (r : ℕ)
    → IsProper p
    → IsBelow q p
    → table p ≡ held_by r true
    → step_all take_entry mode q [] (split q) table ≡ blocked
step_all-stuck p q mode table r proper below held =
    elim (step_all-cases mode q [] (split q) table) [
      | inl e ↦ e
      | inr (table', e) ↦
          let (modes, there) = modes_at-below p q mode proper below in
          let taken : fold take_entry (mode_at mode q p ∷ modes) (held_by r true) ≡ ok (table' p) =
            ap (fold take_entry (mode_at mode q p ∷ modes)) (sym held)
            ∙ ap (λ ms. fold take_entry ms (table p)) (sym there)
            ∙ step_all-fold take_entry mode q [] (split q) table e p in
          let none_left = (writing-stuck (mode_at mode q p ∷ modes) r taken).0 in cc
    ]

-- The client has the lock at p for writing.
abbrev pub IsHeld : ℤ → LockPath → Server → Type 0
IsHeld rep p s =
    (m : Table) × (t : Table) × (r : ℕ) × (s.m_lock rep ≡ some m)
    × (s.t_lock rep ≡ some t)
    × (m p ≡ held_by r true)

acquire_in-IsHeld :
    (rep : ℤ) (p : LockPath) (s : Server) {a : Answer} {s' : Server}
    → IsProper p
    → acquire_in exclusive rep p s ≡ ok (a, s')
    → IsHeld rep p s'
unfolding acquire_in
acquire_in-IsHeld rep p s {a} {s'} proper h =
    let (t, ht, h1) = and_then-eq-ok (deref (s.t_lock rep)) _ h in
    let (m, hm, h2) = and_then-eq-ok (deref (s.m_lock rep)) _ h1 in
    let (t', took, h3) = and_then-eq-ok (step_at take_entry exclusive p t) _ h2 in
    let (m', all, h4) = and_then-eq-ok (step_all take_entry exclusive p [] (split p) m) _ h3 in
    let held : store_maps rep m' t' s ≡ s' = ap (λ x. x.1) (ok-injective h4) in
    let (r, writes) = step_all-writes p m proper all in
    (
      m',
      t',
      r,
      ap (λ u. u.m_lock rep) (sym held) ∙ put_rep_self s.m_lock rep (some m'),
      ap (λ u. u.t_lock rep) (sym held) ∙ put_rep_self s.t_lock rep (some t'),
      writes,
    )

acquire_in-stuck :
    (rep : ℤ) (p q : LockPath) (mode : LockType) (s : Server)
    → IsProper p
    → IsBelow q p
    → IsHeld rep p s
    → acquire_in mode rep q s ≡ blocked
unfolding acquire_in
acquire_in-stuck rep p q mode s proper below (m, t, r, hm, ht, writes) = rw hm (
    rw ht (elim (step_at-cases mode q t) [
      | inl e ↦ rw e refl
      | inr (t', e) ↦ rw e (rw (step_all-stuck p q mode m r proper below writes) refl)
    ]))

-- Once Acquire with an exclusive mode has returned, no Acquire of the same client returns for the same
-- path or one below it, whatever its mode, for a path that is not the root and has no empty first name.
pub acquire-excludes :
    (input later p q : LockPath) (mode : LockType) (rep : ℤ) (s : Server) {a : Answer} {s' : Server}
    → IsProper p
    → IsBelow q p
    → filter_path input ≡ some p
    → filter_path later ≡ some q
    → acquire input exclusive rep s ≡ ok (a, s')
    → acquire later mode rep s' ≡ blocked
unfolding acquire acquire_path make_maps
acquire-excludes input later p q mode rep s {a} {s'} proper below e e' h =
    let got : acquire_in exclusive rep p (make_maps rep (s.m_lock rep) s) ≡ ok (a, s') =
      ap (λ o. acquire_path exclusive rep o s) (sym e) ∙ h in
    let held = acquire_in-IsHeld rep p (make_maps rep (s.m_lock rep) s) proper got in
    ap (λ o. acquire_path mode rep o s') e'
    ∙ ap (λ o. acquire_in mode rep q (make_maps rep o s')) held.3
    ∙ acquire_in-stuck rep p q mode s' proper below held
