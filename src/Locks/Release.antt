-- ===== src/Locks/Release.antt =====
-- Acquire followed by Release in sylan/p3/lock/main.go.
use cmsc818e.Prelude.{
  ℕ, zero, suc, ◌+◌, ◌<◌, ℤ, Bool, true, false, List, [], ◌∷◌, Option, none, some, eqb_ℤ, eqb_ℤ_iff,
  Option-cases, if◌then◌else◌, Bool-cases, ◌≡◌, ◌↔◌, refl, ap, sym, ◌∙◌, inl, inr, arith, ok, panic,
  blocked, and_then, and_then-eq-ok, ok-injective, deref, deref-eq-ok,
}
use cmsc818e.Locks.{
  LockPath, RwMutex, LockType, shared, exclusive, take_lock, give_lock, Table, Entry, put_path,
  mutex_of, take_entry, give_entry, step_at, step_all, split, Server, Answer, acquire, release,
  table_of, reply, put_rep, store_maps, release_path, release_map, release_in, acquire_in,
  acquire_path, make_maps, filter_path, not_a_path,
}
use cmsc818e.Locks.Entries.{
  modes_at, fold, step_all-fold, fold-step_all, eqb_path_self, put_path-cases,
}

abbrev pub held_by : ℕ → Bool → Entry
held_by r w = some (record { readers = r; writing = w; waiting = false })

-- A lock that is held for writing cannot be taken.
pub writing-stuck :
    (modes : List LockType) (r : ℕ) {o : Entry}
    → fold take_entry modes (held_by r true) ≡ ok o
    → (modes ≡ []) × (o ≡ held_by r true)
unfolding take_entry take_lock
writing-stuck [] r h = (refl, sym (ok-injective h))
writing-stuck (shared ∷ modes) r h = cc
writing-stuck (exclusive ∷ modes) r h = cc

pub give_entry-shared :
    (n : ℕ) (w : Bool) → give_entry shared (held_by (n + 1) w) ≡ ok (held_by n w)
unfolding give_entry give_lock
give_entry-shared n w = ground arith

pub take_entry-readers : (r : ℕ) → 0 < r → take_entry exclusive (held_by r false) ≡ blocked
unfolding take_entry take_lock
take_entry-readers r h = ground arith

-- A lock with readers is taken by readers only, which can leave again.
pub readers-leave :
    (modes : List LockType) (r : ℕ) {o : Entry}
    → fold take_entry modes (held_by (r + 1) false) ≡ ok o
    → (k : ℕ) × (o ≡ held_by (r + 1 + k) false)
      × ((j : ℕ) → fold give_entry modes (held_by (j + k) false) ≡ ok (held_by j false))
unfolding take_entry take_lock
readers-leave [] r h = (
  0,
  sym (ok-injective h) ∙ ap (λ n. held_by n false) (omega arith),
  λ j. ap (λ n. ok (held_by n false)) (omega arith),
)
readers-leave (shared ∷ modes) r h =
    let (k, there, leave) = readers-leave modes (r + 1) h in
    (
      k + 1,
      there ∙ ap (λ n. held_by n false) (omega arith),
      λ j.
          let more : j + (k + 1) ≡ j + k + 1 = omega arith in
          rw more (rw (give_entry-shared (j + k) false) (leave j)),
    )
readers-leave (exclusive ∷ modes) r {o} h =
    let waits : blocked ≡ ok o =
      ap (λ m. and_then m (fold take_entry modes)) (sym (take_entry-readers (r + 1) (omega arith)))
      ∙ h in
    cc

-- What was taken can be given back, and leaves the lock as it was.
pub fold-give :
    (modes : List LockType) (r : ℕ) (w : Bool) {o : Entry}
    → fold take_entry modes (held_by r w) ≡ ok o
    → fold give_entry modes o ≡ ok (held_by r w)
unfolding take_entry take_lock give_entry give_lock
fold-give [] r w h = ap ok (sym (ok-injective h))
fold-give (shared ∷ modes) r true h = cc
fold-give (shared ∷ modes) r false h =
    let (k, there, leave) = readers-leave modes r h in
    let more : r + 1 + k ≡ r + k + 1 = omega arith in
    rw there (rw more (rw (give_entry-shared (r + k) false) (leave r)))
fold-give (exclusive ∷ modes) r true h = cc
fold-give (exclusive ∷ modes) zero false h =
    let (nil, there) = writing-stuck modes 0 h in rw there (rw nil refl)
fold-give (exclusive ∷ modes) (suc r) false {o} h =
    let waits : blocked ≡ ok o =
      ap (λ m. and_then m (fold take_entry modes)) (sym (take_entry-readers (suc r) (omega arith)))
      ∙ h in
    cc

-- Nobody gets a lock that a writer waits for.
pub take_entry-waiting :
    (mode : LockType) (m : RwMutex) → m.waiting ≡ true → take_entry mode (some m) ≡ blocked
unfolding take_entry take_lock
take_entry-waiting shared m waits = rw waits refl
take_entry-waiting exclusive m waits = rw waits refl

pub fold-undone :
    (modes : List LockType) (o : Entry) {o' : Entry}
    → fold take_entry modes o ≡ ok o'
    → (back : Entry) × (fold give_entry modes o' ≡ ok back) × (mutex_of back ≡ mutex_of o)
unfolding take_entry
fold-undone [] o h = (o, sym h, refl)
fold-undone (mode ∷ modes) none h = (held_by 0 false, fold-give (mode ∷ modes) 0 false h, refl)
fold-undone (mode ∷ modes) (some m) {o'} h = elim (Bool-cases m.waiting) [
  | inl waits ↦
      let never : and_then blocked (fold take_entry modes) ≡ ok o' =
        ap (λ r. and_then r (fold take_entry modes)) (sym (take_entry-waiting mode m waits)) ∙ h in
      cc
  | inr goes ↦
      let is : some m ≡ held_by m.readers m.writing =
        ap (λ v. some (record m { waiting = v })) goes in
      (
        some m,
        fold-give (mode ∷ modes) m.readers m.writing
              (ap (fold take_entry (mode ∷ modes)) (sym is) ∙ h)
            ∙ ap ok (sym is),
        refl,
      )
]

-- A release undoes an acquisition of the entries of a map.
pub step_all-undone :
    (mode : LockType) (path acc : LockPath) (names : List LockPath) (table : Table) {table' : Table}
    → step_all take_entry mode path acc names table ≡ ok table'
    → (back : Table) × (step_all give_entry mode path acc names table' ≡ ok back)
      × ((q : LockPath) → mutex_of (back q) ≡ mutex_of (table q))
step_all-undone mode path acc names table {table'} h =
    let modes : LockPath → List LockType = λ q. modes_at q mode path acc names in
    let undone = λ (q : LockPath).
      fold-undone (modes q) (table q) (step_all-fold take_entry mode path acc names table h q) in
    let (back, gave) =
      fold-step_all give_entry mode path acc names table' (λ q. ((undone q).0, (undone q).1)) in
    (
      back,
      gave,
      λ q.
          let same : (undone q).0 ≡ back q =
            ok-injective
              (sym (undone q).1 ∙ step_all-fold give_entry mode path acc names table' gave q) in
          ap mutex_of (sym same) ∙ (undone q).2,
    )

pub step_at-undone :
    (mode : LockType) (path : LockPath) (table : Table) {table' : Table}
    → step_at take_entry mode path table ≡ ok table'
    → (back : Table) × (step_at give_entry mode path table' ≡ ok back)
      × ((q : LockPath) → mutex_of (back q) ≡ mutex_of (table q))
unfolding step_at
step_at-undone mode path table {table'} h =
    let (o, h1, h2) = and_then-eq-ok (take_entry mode (table path)) _ h in
    let stored : put_path table path o ≡ table' = ok-injective h2 in
    let there : table' path ≡ o =
      ap (λ u. u path) (sym stored) ∙ ap (λ b. if b then o else table path) (eqb_path_self path) in
    let (last, given, same) = fold-undone (mode ∷ []) (table path) {o' = o} (rw h1 refl) in
    let (b, h3, h4) = and_then-eq-ok (give_entry mode o) _ given in
    (
      put_path table' path last,
      rw there (rw h3 (ap (λ e. ok (put_path table' path e)) (ok-injective h4))),
      λ q. elim (put_path-cases table' path q last) [
        | inl (here_q, e, new) ↦ ap mutex_of new ∙ same ∙ ap (λ k. mutex_of (table k)) here_q
        | inr (e, old) ↦
            ap mutex_of (old ∙ ap (λ u. u q) (sym stored) ∙ ap (λ b. if b then o else table q) e)
      ],
    )

pub put_rep_self : (m : ℤ → Option Table) (k : ℤ) (v : Option Table) → put_rep m k v k ≡ v
put_rep_self m k v = ap (λ b. if b then v else m k) ((eqb_ℤ_iff k k).1 refl)

-- Release, where the maps of the client are there and the locks in them can be given back.
pub release_path-ok :
    (mode : LockType) (rep : ℤ) (path : LockPath) (s : Server) {m t m' t' : Table}
    → s.m_lock rep ≡ some m
    → s.t_lock rep ≡ some t
    → step_at give_entry mode path t ≡ ok t'
    → step_all give_entry mode path [] (split path) m ≡ ok m'
    → release_path mode rep (some path) s ≡ ok (reply path mode rep, store_maps rep m' t' s)
unfolding release_path release_map release_in give_entry step_at
release_path-ok mode rep path s {m} {t} {m'} {t'} hm ht gave all =
    let back : release_in mode rep path (t path) t s
        ≡ ok (reply path mode rep, store_maps rep m' t' s) =
      elim (Option-cases (t path)) [
        | inl e ↦
            let nil : panic ≡ ok t' =
              ap (λ o. and_then (give_entry mode o) (λ o'. ok (put_path t path o'))) (sym e)
              ∙ gave in
            cc
        | inr (lock, e) ↦ ap (λ o. release_in mode rep path o t s) e ∙ rw gave (rw hm (rw all refl))
      ] in
    rw ht back

-- The locks of a server, as far as they are held.
abbrev pub SameLocks : Server → Server → Type 0
SameLocks t s =
    (r : ℤ) (q : LockPath)
    → (mutex_of (table_of (t.m_lock r) q) ≡ mutex_of (table_of (s.m_lock r) q))
      × (mutex_of (table_of (t.t_lock r) q) ≡ mutex_of (table_of (s.t_lock r) q))

pub put_rep-same :
    (maps : ℤ → Option Table) (rep r : ℤ) (q : LockPath) {m : Table} (taken back : Table)
    → maps rep ≡ some m
    → ((k : LockPath) → mutex_of (back k) ≡ mutex_of (m k))
    → mutex_of (table_of (put_rep (put_rep maps rep (some taken)) rep (some back) r) q)
      ≡ mutex_of (table_of (maps r) q)
put_rep-same maps rep r q {m} taken back h same = elim (Bool-cases (eqb_ℤ rep r)) [
  | inl e ↦
      let here : maps r ≡ some m = ap maps (sym ((eqb_ℤ_iff rep r).0 e)) ∙ h in
      rw e (rw here (same q))
  | inr e ↦ rw e refl
]

pub acquire_in-undone :
    (mode : LockType) (rep : ℤ) (path : LockPath) (s : Server) {a : Answer} {s' : Server}
    → acquire_in mode rep path s ≡ ok (a, s')
    → (t : Server) × (a ≡ reply path mode rep)
      × (release_path mode rep (some path) s' ≡ ok (reply path mode rep, t))
      × SameLocks t s
unfolding acquire_in
acquire_in-undone mode rep path s {a} {s'} h =
    let (t, ht, h1) = and_then-eq-ok (deref (s.t_lock rep)) _ h in
    let (m, hm, h2) = and_then-eq-ok (deref (s.m_lock rep)) _ h1 in
    let (t', took, h3) = and_then-eq-ok (step_at take_entry mode path t) _ h2 in
    let (m', all, h4) = and_then-eq-ok (step_all take_entry mode path [] (split path) m) _ h3 in
    let (back_t, gave_t, same_t) = step_at-undone mode path t took in
    let (back_m, gave_m, same_m) = step_all-undone mode path [] (split path) m all in
    let held = store_maps rep m' t' s in
    let pair : (reply path mode rep, held) ≡ (a, s') = ok-injective h4 in
    (
      store_maps rep back_m back_t held,
      ap (λ x. x.0) (sym pair),
      ap (λ x. release_path mode rep (some path) x.1) (sym pair)
          ∙ release_path-ok mode rep path held (put_rep_self s.m_lock rep (some m'))
              (put_rep_self s.t_lock rep (some t')) gave_t gave_m,
      λ r q. (
        put_rep-same s.m_lock rep r q m' back_m (deref-eq-ok _ hm) same_m,
        put_rep-same s.t_lock rep r q t' back_t (deref-eq-ok _ ht) same_t,
      ),
    )

-- The maps of a client are made together.
abbrev pub IsPaired : Server → Type 0
IsPaired s = (r : ℤ) → (s.m_lock r ≡ none) ↔ (s.t_lock r ≡ none)

pub make_maps-same :
    (rep : ℤ) (o : Option Table) (s : Server)
    → s.m_lock rep ≡ o
    → IsPaired s
    → SameLocks (make_maps rep o s) s
unfolding make_maps
make_maps-same rep (some table) s e paired r q = (refl, refl)
make_maps-same rep none s e paired r q = elim (Bool-cases (eqb_ℤ rep r)) [
  | inl same ↦
      let here = (eqb_ℤ_iff rep r).0 same in
      let no_m : s.m_lock r ≡ none = ap s.m_lock (sym here) ∙ e in
      let no_t : s.t_lock r ≡ none = (paired r).0 no_m in rw same (rw no_m (rw no_t (refl, refl)))
  | inr other ↦ rw other (refl, refl)
]

pub acquire_path-undone :
    (mode : LockType) (rep : ℤ) (found : Option LockPath) (s : Server) {path : LockPath}
    {s' : Server}
    → IsPaired s
    → acquire_path mode rep found s ≡ ok (reply path mode rep, s')
    → (t : Server) × (release_path mode rep found s' ≡ ok (reply path mode rep, t)) × SameLocks t s
unfolding acquire_path
acquire_path-undone mode rep none s paired h =
    let no : not_a_path ≡ reply _ mode rep = ap (λ x. x.0) (ok-injective h) in cc
acquire_path-undone mode rep (some p) s paired h =
    let (t, same_reply, released, same) =
      acquire_in-undone mode rep p (make_maps rep (s.m_lock rep) s) h in
    (
      t,
      released ∙ ap (λ a. ok (a, t)) (sym same_reply),
      λ r q.
          let made = make_maps-same rep (s.m_lock rep) s refl paired r q in
          ((same r q).0 ∙ made.0, (same r q).1 ∙ made.1),
    )

-- Whatever Acquire took, Release with the same arguments gives back: it returns the same reply, and each
-- lock of each client is as it was before.
pub acquire-release :
    (input : LockPath) (mode : LockType) (rep : ℤ) (s : Server) {path : LockPath} {s' : Server}
    → IsPaired s
    → acquire input mode rep s ≡ ok (reply path mode rep, s')
    → (t : Server) × (release input mode rep s' ≡ ok (reply path mode rep, t)) × SameLocks t s
unfolding acquire release
acquire-release input mode rep s paired h =
    acquire_path-undone mode rep (filter_path input) s paired h
