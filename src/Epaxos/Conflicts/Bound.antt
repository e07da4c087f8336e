-- ===== src/Epaxos/Conflicts/Bound.antt =====
-- The sequence number that findMaxConflict returns.
use cmsc818e.Prelude.{
  ℕ, zero, suc, ◌+◌, ◌<◌, ℤ, pos, true, List, [], ◌∷◌, some, ◌≡◌, inl, inr, arith, ◌≤ℤ◌, length, ok,
  get_elem?, lt_of_get_elem?,
}
use native.Mathlib.Nat.{le-suc_iff}
use cmsc818e.Epaxos.Messages.{Operation, Instance}
use cmsc818e.Epaxos.State.{Log, Replica}
use cmsc818e.Epaxos.Conflicts.{ops_conflict, scan_entry, scan_log, scan_logs, find_max_conflict}
use cmsc818e.Epaxos.Conflicts.Steps.{Holds, scan_log-Round, scan_logs-cons, find_max_conflict-ok}

module _ (ops : List Operation) where
  -- `m` is at least the sequence number of every conflicting entry below index `k`.
  abbrev pub LogBound : Log → ℕ → ℤ → Type 0
  LogBound entries k m =
      (i : ℕ) (inst : Instance)
      → i < k
      → get_elem? entries i ≡ some (some inst)
      → ops_conflict inst.ops ops ≡ true
      → inst.seq ≤ℤ m

  abbrev pub LogsBound : List Log → ℤ → Type 0
  LogsBound logs m =
      (rep i : ℕ) (inst : Instance)
      → Holds logs rep i inst
      → ops_conflict inst.ops ops ≡ true
      → inst.seq ≤ℤ m

  scan_entry-le :
      (rep i : ℕ) (inst : Instance) (acc acc' : ℤ × List ℤ)
      → scan_entry ops rep i inst acc ≡ ok acc'
      → (acc.0 ≤ℤ acc'.0) × (ops_conflict inst.ops ops ≡ true → inst.seq ≤ℤ acc'.0)
  unfolding scan_entry
  scan_entry-le rep i inst (m, ds) (m', ds') h = ground arith

  pub scan_log-LogBound :
      (rep : ℕ) (entries : Log) (k : ℕ) (acc acc' : ℤ × List ℤ)
      → scan_log ops rep entries k acc ≡ ok acc'
      → (acc.0 ≤ℤ acc'.0) × LogBound entries k acc'.0
  unfolding scan_log
  scan_log-LogBound rep entries zero (m, ds) (m', ds') h =
      (ground arith, λ i inst lt e c. absurd (omega arith))
  scan_log-LogBound rep entries (suc k) acc acc' h =
      let round = scan_log-Round ops rep entries k acc acc' h in
      let one = scan_entry-le rep k round.inst acc round.mid round.first in
      let rest = scan_log-LogBound rep entries k round.mid acc' round.rest in
      (
        omega arith,
        λ i inst lt e c. elim (le-suc_iff.0 lt) [
          | inl below ↦ rest.1 i inst below e c
          | inr last ↦
              let idx : i ≡ k = omega arith in
              let same : round.inst ≡ inst = cc (idx, round.found, e) in
              omega (arith, rw same at (one.1 (rw same c)))
        ],
      )

  pub scan_logs-LogsBound :
      (rep : ℕ) (logs : List Log) (acc acc' : ℤ × List ℤ)
      → scan_logs ops rep logs acc ≡ ok acc'
      → (acc.0 ≤ℤ acc'.0) × LogsBound logs acc'.0
  unfolding scan_logs
  scan_logs-LogsBound rep [] (m, ds) (m', ds') h =
      (ground arith, λ rep i inst (entries, at, e) c. cc)
  scan_logs-LogsBound rep (entries ∷ logs) acc acc' h =
      let (mid, first, rest) = scan_logs-cons ops rep entries logs acc acc' h in
      let one = scan_log-LogBound rep entries (length entries) acc mid first in
      let more = scan_logs-LogsBound (rep + 1) logs mid acc' rest in
      (omega arith, bound mid.0 one.0 one.1 more.0 more.1)
    where
      bound :
          (m : ℤ)
          → acc.0 ≤ℤ m
          → LogBound entries (length entries) m
          → m ≤ℤ acc'.0
          → LogsBound logs acc'.0
          → LogsBound (entries ∷ logs) acc'.0
      bound m le first le' rest zero i inst (es, at, e) c =
          let same : entries ≡ es = cc in
          let here : get_elem? entries i ≡ some (some inst) = rw same e in
          omega (arith, first i inst (lt_of_get_elem? entries i here) here c)
      bound m le first le' rest (suc k) i inst held c = rest k i inst held c

-- findMaxConflict returns a sequence number that is at least 0, and at least that of every logged
-- instance that touches a key of one of the operations.
pub find_max_conflict-bound :
    (r : Replica) (ops : List Operation) (m : ℤ) (deps : List ℤ)
    → find_max_conflict r ops ≡ ok (m, deps)
    → (pos 0 ≤ℤ m) × LogsBound ops r.logs m
find_max_conflict-bound r ops m deps h =
    let (start, begun, scanned) = find_max_conflict-ok r ops h in
    scan_logs-LogsBound ops 0 r.logs (pos 0, start) (m, deps) scanned
