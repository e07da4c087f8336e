-- ===== src/Epaxos/Conflicts/Missed.antt =====
-- A dependence that findMaxConflict leaves out: it records a slot of a replica only when the number
-- there exceeds every number seen before, those of the other replicas included.
use cmsc818e.Prelude.{
  ℕ, zero, suc, ◌+◌, ◌<◌, ℤ, pos, negsuc, true, List, [], ◌∷◌, some, ◌≡◌, refl, arith, ◌≤ℤ◌, ok,
  length, get_elem?, get_elem?-set_ne, ◌≢◌, sym, ap, ◌∙◌, replicate, ok-injective, get_elem?_of_lt,
  get_elem?-replicate, lt_of_get_elem?, length-replicate,
}
use native.Mathlib.Nat.{zero-add}
use cmsc818e.Epaxos.Messages.{Operation, Instance}
use cmsc818e.Epaxos.State.{Log, Replica}
use cmsc818e.Epaxos.Init.{range}
use cmsc818e.Epaxos.Conflicts.{ops_conflict, scan_log, scan_logs, find_max_conflict}
use cmsc818e.Epaxos.Conflicts.Steps.{Holds, scan_log-Round, scan_logs-cons, find_max_conflict-ok}
use cmsc818e.Epaxos.Conflicts.Bound.{scan_log-LogBound}
use cmsc818e.Epaxos.Conflicts.Deps.{skip, take, scan_entry-Change, init_deps-replicate}

module _ (ops : List Operation) where
  -- The scan of one log leaves the dependences on other replicas alone.
  scan_log-other :
      (rep : ℕ) (entries : Log) (k : ℕ) (acc acc' : ℤ × List ℤ) (j : ℕ)
      → scan_log ops rep entries k acc ≡ ok acc'
      → rep ≢ j
      → get_elem? acc'.1 j ≡ get_elem? acc.1 j
  unfolding scan_log
  scan_log-other rep entries zero acc acc' j h ne = let e : acc ≡ acc' = cc in rw e
  scan_log-other rep entries (suc k) acc acc' j h ne =
      let round = scan_log-Round ops rep entries k acc acc' h in
      scan_log-other rep entries k round.mid acc' j round.rest ne
      ∙ elim (scan_entry-Change ops rep k round.inst acc round.mid round.first) [
        | skip e ↦ rw e
        | take c up lt e ↦ rw e (get_elem?-set_ne acc.1 rep j (pos k) ne)
      ]

  -- A log whose conflicting numbers are all known changes nothing.
  scan_log-below :
      (rep : ℕ) (entries : Log) (k : ℕ) (acc acc' : ℤ × List ℤ)
      → scan_log ops rep entries k acc ≡ ok acc'
      → ((i : ℕ) (inst : Instance)
          → get_elem? entries i ≡ some (some inst)
          → ops_conflict inst.ops ops ≡ true
          → inst.seq ≤ℤ acc.0)
      → acc' ≡ acc
  unfolding scan_log
  scan_log-below rep entries zero acc acc' h low = cc
  scan_log-below rep entries (suc k) acc acc' h low =
      let round = scan_log-Round ops rep entries k acc acc' h in
      elim (scan_entry-Change ops rep k round.inst acc round.mid round.first) [
        | skip e ↦ scan_log-below rep entries k acc acc' (rw e at round.rest) low
        | take c up lt e ↦ absurd (omega (arith, low k round.inst round.found c))
      ]

  -- The scan of the logs from `rep` on leaves the dependences before it alone.
  scan_logs-other :
      (rep : ℕ) (logs : List Log) (acc acc' : ℤ × List ℤ) (j : ℕ)
      → scan_logs ops rep logs acc ≡ ok acc'
      → j < rep
      → get_elem? acc'.1 j ≡ get_elem? acc.1 j
  unfolding scan_logs
  scan_logs-other rep [] acc acc' j h lt = let e : acc ≡ acc' = cc in rw e
  scan_logs-other rep (entries ∷ logs) acc acc' j h lt =
      let (mid, first, rest) = scan_logs-cons ops rep entries logs acc acc' h in
      scan_logs-other (rep + 1) logs mid acc' j rest (omega arith)
      ∙ scan_log-other rep entries (length entries) acc mid j first (omega arith)

  -- The dependence on a replica whose conflicting numbers are all known stays as it is.
  scan_logs-below :
      (rep : ℕ) (logs : List Log) (acc acc' : ℤ × List ℤ) (j : ℕ)
      → scan_logs ops rep logs acc ≡ ok acc'
      → ((i : ℕ) (inst : Instance)
          → Holds logs j i inst
          → ops_conflict inst.ops ops ≡ true
          → inst.seq ≤ℤ acc.0)
      → get_elem? acc'.1 (rep + j) ≡ get_elem? acc.1 (rep + j)
  unfolding scan_logs
  scan_logs-below rep [] acc acc' j h low = let e : acc ≡ acc' = cc in rw e
  scan_logs-below rep (entries ∷ logs) acc acc' zero h low =
      let (mid, first, rest) = scan_logs-cons ops rep entries logs acc acc' h in
      let same =
        scan_log-below rep entries (length entries) acc mid first
          (λ i inst at c. low i inst (entries, refl, at) c) in
      scan_logs-other (rep + 1) logs mid acc' (rep + 0) rest (omega arith) ∙ rw same
  scan_logs-below rep (entries ∷ logs) acc acc' (suc j) h low =
      let (mid, first, rest) = scan_logs-cons ops rep entries logs acc acc' h in
      let le = (scan_log-LogBound ops rep entries (length entries) acc mid first).0 in
      let idx : rep + 1 + j ≡ rep + suc j = omega arith in
      rw idx at (
        scan_logs-below (rep + 1) logs mid acc' j rest
          (λ i inst held c. omega (arith, low i inst held c, le)))
      ∙ scan_log-other rep entries (length entries) acc mid (rep + suc j) first (omega arith)

  scan_logs-overtaken :
      (rep : ℕ) (logs : List Log) (acc acc' : ℤ × List ℤ) (i j s : ℕ) (inst : Instance)
      → scan_logs ops rep logs acc ≡ ok acc'
      → i < j
      → Holds logs i s inst
      → ops_conflict inst.ops ops ≡ true
      → ((s' : ℕ) (other : Instance)
          → Holds logs j s' other
          → ops_conflict other.ops ops ≡ true
          → other.seq ≤ℤ inst.seq)
      → get_elem? acc'.1 (rep + j) ≡ get_elem? acc.1 (rep + j)
  unfolding scan_logs
  scan_logs-overtaken rep [] acc acc' i j s inst h lt held c low = let e : acc ≡ acc' = cc in rw e
  scan_logs-overtaken rep (entries ∷ logs) acc acc' i zero s inst h lt held c low =
      absurd (omega arith)
  scan_logs-overtaken rep (entries ∷ logs) acc acc' zero (suc j) s inst h lt (es, at, held) c low =
      let (mid, first, rest) = scan_logs-cons ops rep entries logs acc acc' h in
      let same : entries ≡ es = cc in
      let here : get_elem? entries s ≡ some (some inst) = rw same held in
      let bound =
        (scan_log-LogBound ops rep entries (length entries) acc mid first).1 s inst
          (lt_of_get_elem? entries s here) here c in
      let idx : rep + 1 + j ≡ rep + suc j = omega arith in
      rw idx at (
        scan_logs-below (rep + 1) logs mid acc' j rest
          (λ s' other other_held oc. omega (arith, low s' other other_held oc, bound)))
      ∙ scan_log-other rep entries (length entries) acc mid (rep + suc j) first (omega arith)
  scan_logs-overtaken rep (entries ∷ logs) acc acc' (suc i) (suc j) s inst h lt held c low =
      let (mid, first, rest) = scan_logs-cons ops rep entries logs acc acc' h in
      let idx : rep + 1 + j ≡ rep + suc j = omega arith in
      rw idx at
        (scan_logs-overtaken (rep + 1) logs mid acc' i j s inst rest (omega arith) held c low)
      ∙ scan_log-other rep entries (length entries) acc mid (rep + suc j) first (omega arith)

-- If a replica `i` has logged a conflicting instance, and no conflicting instance of a later replica
-- `j` has a higher sequence number than that one, then findMaxConflict reports no dependence on `j`,
-- however many conflicting instances the log of `j` holds.
pub find_max_conflict-missed :
    (r : Replica) (ops : List Operation) (m : ℤ) (deps : List ℤ) (i j s : ℕ) (inst : Instance)
    → r.all_reps ≡ range 0 r.n
    → find_max_conflict r ops ≡ ok (m, deps)
    → i < j
    → j < r.n
    → Holds r.logs i s inst
    → ops_conflict inst.ops ops ≡ true
    → ((s' : ℕ) (other : Instance)
        → Holds r.logs j s' other
        → ops_conflict other.ops ops ≡ true
        → other.seq ≤ℤ inst.seq)
    → get_elem? deps j ≡ some (negsuc 0)
find_max_conflict-missed r ops m deps i j s inst all h lt in_range held c low =
    let (start, begun, scanned) = find_max_conflict-ok r ops h in
    let begun' : start ≡ replicate r.n (negsuc 0) =
      ok-injective (sym begun ∙ rw all (init_deps-replicate r.n)) in
    let kept =
      scan_logs-overtaken ops 0 r.logs (pos 0, start) (m, deps) i j s inst scanned lt held c low in
    let (d, found) =
      get_elem?_of_lt (replicate r.n (negsuc 0)) j
        (omega (arith, length-replicate r.n (negsuc 0))) in
    let (_, value) = get_elem?-replicate r.n j (negsuc 0) found in
    rw zero-add at kept ∙ rw begun' (found ∙ ap some value)
