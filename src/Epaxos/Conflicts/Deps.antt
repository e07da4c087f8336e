-- ===== src/Epaxos/Conflicts/Deps.antt =====
-- The dependences that findMaxConflict returns.
use cmsc818e.Prelude.{
  ℕ, zero, suc, ◌+◌, ◌<◌, ℤ, pos, negsuc, true, List, ◌++◌, some, ◌≡◌, refl, ◌⊎◌, inl, inr, arith,
  ◌≤ℤ◌, ◌<ℤ◌, ltb_ℤ, length, ok, get_elem?, set, Bool-cases, assign, assign-eq-ok, assign_of_lt,
  and_then-eq-ok, get_elem?-set_self, get_elem?-set_ne, replicate, ◌&&◌, sym, ap, ◌∙◌,
  length-append, length-replicate, set-append_self, replicate-append-cons, get_elem?-replicate,
  ok-injective,
}
use native.Mathlib.Nat.{zero-add}
use native.Mathlib.Numerals.{add-one}
use native.Mathlib.Decide.{ℕ_discrete}
use cmsc818e.Epaxos.Messages.{Operation, Instance}
use cmsc818e.Epaxos.State.{Log, Replica}
use cmsc818e.Epaxos.Init.{range}
use cmsc818e.Epaxos.Conflicts.{ops_conflict, init_deps, scan_entry, find_max_conflict}
use cmsc818e.Epaxos.Conflicts.Steps.{Holds, find_max_conflict-ok, scan_logs-induct}

-- What one entry does: nothing, or it becomes the dependence of its replica.
pub data Change (ops : List Operation) (rep i : ℕ) (inst : Instance) (acc acc' : ℤ × List ℤ)
    : Type 0 where
  skip : acc' ≡ acc → Change ops rep i inst acc acc'
  take :
      ops_conflict inst.ops ops ≡ true
      → acc.0 <ℤ inst.seq
      → rep < length acc.1
      → acc' ≡ (inst.seq, set acc.1 rep (pos i))
      → Change ops rep i inst acc acc'

pub scan_entry-Change :
    (ops : List Operation) (rep i : ℕ) (inst : Instance) (acc acc' : ℤ × List ℤ)
    → scan_entry ops rep i inst acc ≡ ok acc'
    → Change ops rep i inst acc acc'
unfolding scan_entry
scan_entry-Change ops rep i inst (m, ds) acc' h =
    elim (Bool-cases (ops_conflict inst.ops ops && ltb_ℤ m inst.seq)) [
      | inl hit ↦
          let (ds', done, e) = and_then-eq-ok (assign ds (pos rep) (pos i)) _ (rw hit at h) in
          let (j, same, lt, set_to) = assign-eq-ok ds (pos rep) (pos i) done in
          let idx : rep ≡ j = cc in take (ground arith) (ground (arith)) (rw idx lt) (cc)
      | inr miss ↦ skip (ground arith)
    ]

-- Every dependence that is a slot names a logged instance in conflict, of no higher number than `m`.
abbrev pub DepsSound : List Operation → List Log → ℤ × List ℤ → Type 0
DepsSound ops logs (m, ds) =
    (rep i : ℕ)
    → get_elem? ds rep ≡ some (pos i)
    → (inst : Instance) × Holds logs rep i inst
      × (ops_conflict inst.ops ops ≡ true)
      × (inst.seq ≤ℤ m)

module _ (ops : List Operation) (logs : List Log) where
  scan_entry-DepsSound :
      (rep i : ℕ) (inst : Instance) (acc acc' : ℤ × List ℤ)
      → Holds logs rep i inst
      → Change ops rep i inst acc acc'
      → DepsSound ops logs acc
      → DepsSound ops logs acc'
  scan_entry-DepsSound rep i inst acc acc' held (skip e) sound = rw e sound
  scan_entry-DepsSound rep i inst acc acc' held (take conflict up lt e) sound = rw e (λ rep' i' at.
      elim (ℕ_discrete rep rep') [
        | yes here ↦
            let idx : i ≡ i' = cc (here, get_elem?-set_self acc.1 rep (pos i) lt, at) in
            (inst, rw (← here, ← idx) held, conflict, omega arith)
        | no away ↦
            let (old, old_held, old_conflict, le) =
              sound rep' i' (rw (get_elem?-set_ne acc.1 rep rep' (pos i) away) at at) in
            (old, old_held, old_conflict, omega arith)
      ])

-- Either nothing conflicts, or some dependence names an instance that has the number `m`.
abbrev pub Latest : List Operation → List Log → ℤ × List ℤ → Type 0
Latest ops logs (m, ds) =
    (m ≡ pos 0)
    ⊎ ((rep : ℕ) × (i : ℕ) × (inst : Instance) × Holds logs rep i inst
        × (ops_conflict inst.ops ops ≡ true)
        × (inst.seq ≡ m)
        × (get_elem? ds rep ≡ some (pos i)))

scan_entry-Latest :
    (ops : List Operation) (logs : List Log) (rep i : ℕ) (inst : Instance) (acc acc' : ℤ × List ℤ)
    → Holds logs rep i inst
    → Change ops rep i inst acc acc'
    → Latest ops logs acc
    → Latest ops logs acc'
scan_entry-Latest ops logs rep i inst acc acc' held (skip e) latest = rw e latest
scan_entry-Latest ops logs rep i inst acc acc' held (take conflict up lt e) latest =
    rw e (inr (rep, i, inst, held, conflict, refl, get_elem?-set_self acc.1 rep (pos i) lt))

-- The loop over allReps sets every dependence to -1.
init_deps-range :
    (k j : ℕ)
    → init_deps (range k j) (replicate k (negsuc 0) ++ replicate j (pos 0))
      ≡ ok (replicate k (negsuc 0) ++ replicate j (negsuc 0))
unfolding init_deps
init_deps-range k zero = refl
init_deps-range k (suc j) =
    let at : k < length (replicate k (negsuc 0) ++ replicate (suc j) (pos 0)) = omega (
      arith,
      length-append (replicate k (negsuc 0)) (replicate (suc j) (pos 0)),
      length-replicate k (negsuc 0),
    ) in
    let written : set (replicate k (negsuc 0) ++ replicate (suc j) (pos 0)) k (negsuc 0)
        ≡ replicate (suc k) (negsuc 0) ++ replicate j (pos 0) =
      rw (length-replicate k (negsuc 0)) at
        (set-append_self (replicate k (negsuc 0)) (replicate j (pos 0)) (pos 0) (negsuc 0))
      ∙ replicate-append-cons k (negsuc 0) (replicate j (pos 0)) in
    let rest = rw (← add-one k) at (init_deps-range (suc k) j) in
    rw (assign_of_lt _ k (negsuc 0) at, written)
      (rest ∙ ap ok (sym (replicate-append-cons k (negsuc 0) (replicate j (negsuc 0)))))

pub init_deps-replicate :
    (n : ℕ) → init_deps (range 0 n) (replicate n (pos 0)) ≡ ok (replicate n (negsuc 0))
init_deps-replicate n = init_deps-range 0 n

-- For a replica that lists every replica in allReps, what findMaxConflict returns is made of logged
-- instances that touch a key of one of the operations: a dependence that is a slot names one of
-- them, of no higher number than the number returned, and the number returned is 0 or that of one
-- of them, which is a dependence.
pub find_max_conflict-deps :
    (r : Replica) (ops : List Operation) (acc : ℤ × List ℤ)
    → r.all_reps ≡ range 0 r.n
    → find_max_conflict r ops ≡ ok acc
    → DepsSound ops r.logs acc × Latest ops r.logs acc
find_max_conflict-deps r ops acc all h =
    let (start, begun, scanned) = find_max_conflict-ok r ops h in
    let begun' : start ≡ replicate r.n (negsuc 0) =
      ok-injective (sym begun ∙ rw all (init_deps-replicate r.n)) in
    let sound : DepsSound ops r.logs (pos 0, start) =
      λ rep i at. let (lt, e) = get_elem?-replicate r.n rep (negsuc 0) (rw begun' at at) in cc in
    let part : (j : ℕ) → get_elem? r.logs j ≡ get_elem? r.logs (0 + j) = λ j. rw zero-add in
    (
      scan_logs-induct ops r.logs (DepsSound ops r.logs)
          (λ rep i inst a a' held e.
            scan_entry-DepsSound ops r.logs rep i inst a a' held
              (scan_entry-Change ops rep i inst a a' e))
          0 r.logs (pos 0, start) acc part scanned sound,
      scan_logs-induct ops r.logs (Latest ops r.logs)
          (λ rep i inst a a' held e.
            scan_entry-Latest ops r.logs rep i inst a a' held
              (scan_entry-Change ops rep i inst a a' e))
          0 r.logs (pos 0, start) acc part scanned (inl refl),
    )
