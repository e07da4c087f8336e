-- ===== src/Locks/Entries.antt =====
-- The loops of Acquire and Release in sylan/p3/lock/main.go, seen from the entry of one path: what they
-- do to it is a list of lock operations.
use cmsc818e.Prelude.{
  true, false, List, [], ◌∷◌, ==_iff, if◌then◌else◌, Bool-cases, ◌≡◌, ◌↔◌, ◌⊎◌, ◌∙◌, inl, inr, refl,
  ap, sym, arith, Result, ok, and_then, and_then-eq-ok, ok-injective,
}
use cmsc818e.Locks.{
  LockPath, eqb_path, LockType, Table, Entry, put_path, step_at, step_all, next_path, mode_at,
}

pub eqb_path_iff : (p q : LockPath) → (eqb_path p q ≡ true) ↔ (p ≡ q)
eqb_path_iff [] [] = ground arith
eqb_path_iff [] (y ∷ ys) = ground arith
eqb_path_iff (x ∷ xs) [] = ground arith
eqb_path_iff (x ∷ xs) (y ∷ ys) = ground (arith, eqb_path_iff xs ys, ==_iff x y)

pub eqb_path_self : (p : LockPath) → eqb_path p p ≡ true
eqb_path_self p = (eqb_path_iff p p).1 refl

-- The operations of the loop that concern the lock at q.
abbrev pub modes_at :
    (q : LockPath) → LockType → (path acc : LockPath) → List LockPath → List LockType
modes_at q mode path acc [] = []
modes_at q mode path acc (name ∷ names) =
    let next = next_path acc name in
    let rest = modes_at q mode path next names in
    if eqb_path next q then mode_at mode path next ∷ rest else rest

abbrev pub fold : (LockType → Entry → Result Entry) → List LockType → Entry → Result Entry
fold step [] o = ok o
fold step (mode ∷ modes) o = and_then (step mode o) (λ o'. fold step modes o')

-- The entry at q when the one at k has become o.
pub put_path-cases :
    (table : Table) (k q : LockPath) (o : Entry)
    → ((k ≡ q) × (eqb_path k q ≡ true) × (put_path table k o q ≡ o))
      ⊎ ((eqb_path k q ≡ false) × (put_path table k o q ≡ table q))
put_path-cases table k q o = elim (Bool-cases (eqb_path k q)) [
  | inl e ↦ inl ((eqb_path_iff k q).0 e, e, rw e)
  | inr e ↦ inr (e, rw e)
]

module _ (step : LockType → Entry → Result Entry) where
  -- The loop does to each entry the operations that concern it.
  pub step_all-fold :
      (mode : LockType) (path acc : LockPath) (names : List LockPath) (table : Table)
      {table' : Table}
      → step_all step mode path acc names table ≡ ok table'
      → (q : LockPath) → fold step (modes_at q mode path acc names) (table q) ≡ ok (table' q)
  unfolding step_all step_at
  step_all-fold mode path acc [] table h q = ap (λ r. and_then r (λ t. ok (t q))) h
  step_all-fold mode path acc (name ∷ names) table h q =
      let next = next_path acc name in
      let m = mode_at mode path next in
      let (t, h1, h2) = and_then-eq-ok (step_at step m next table) _ h in
      let (o, h3, h4) = and_then-eq-ok (step m (table next)) _ h1 in
      let moved : put_path table next o q ≡ t q = ap (λ u. u q) (ok-injective h4) in
      let rest = step_all-fold mode path next names t h2 q in
      elim (put_path-cases table next q o) [
        | inl (same, e, new) ↦
            let taken : step m (table q) ≡ ok o = ap (λ k. step m (table k)) (sym same) ∙ h3 in
            let at : t q ≡ o = sym moved ∙ new in rw e (rw taken (rw (sym at) rest))
        | inr (e, old) ↦ let at : table q ≡ t q = sym old ∙ moved in rw e (rw at rest)
      ]

  -- The loop returns where the operations on each entry do.
  pub fold-step_all :
      (mode : LockType) (path acc : LockPath) (names : List LockPath) (table : Table)
      → ((q : LockPath)
          → (o : Entry) × (fold step (modes_at q mode path acc names) (table q) ≡ ok o))
      → (table' : Table) × (step_all step mode path acc names table ≡ ok table')
  unfolding step_all step_at
  fold-step_all mode path acc [] table h = (table, refl)
  fold-step_all mode path acc (name ∷ names) table h =
      let next = next_path acc name in
      let m = mode_at mode path next in
      let rest : LockPath → List LockType = λ q. modes_at q mode path next names in
      let (last, done) = h next in
      let cons : fold step (m ∷ rest next) (table next) ≡ ok last =
        ap (λ b. fold step (if b then m ∷ rest next else rest next) (table next))
          (sym (eqb_path_self next))
        ∙ done in
      let (o, h1, h2) = and_then-eq-ok (step m (table next)) _ cons in
      let t = put_path table next o in
      let after : (q : LockPath) → (o' : Entry) × (fold step (rest q) (t q) ≡ ok o') = λ q.
        elim (put_path-cases table next q o) [
          | inl (same, e, new) ↦
              (last, ap (fold step (rest q)) new ∙ ap (λ k. fold step (rest k) o) (sym same) ∙ h2)
          | inr (e, old) ↦
              let (o', was) = h q in
              (
                o',
                ap (fold step (rest q)) old
                    ∙ ap (λ b. fold step (if b then m ∷ rest q else rest q) (table q)) (sym e)
                    ∙ was,
              )
        ] in
      let (table', looped) = fold-step_all mode path next names t after in (table', rw h1 looped)
