-- ===== src/Epaxos/Conflicts.antt =====
-- findMaxConflict of sylan/p4/partB/replica/replica.go: the highest sequence number among the
-- instances that touch a key of `ops`, and the dependences.
pub mod Steps
pub mod Bound
pub mod Deps
pub mod Total
pub mod Missed
use cmsc818e.Prelude.{
  ℕ, zero, suc, ℤ, pos, negsuc, Bool, true, false, ◌||◌, ◌&&◌, List, [], ◌∷◌, Option, none, some,
  ltb_ℤ, suc_int64, eqb_ℤ, str_eq, if◌then◌else◌, any, length, replicate, Result, ok, panic,
  and_then, deref, get_elem?, assign, ◌+◌,
}
use cmsc818e.Epaxos.Messages.{Operation, Instance}
use cmsc818e.Epaxos.State.{Log, Replica}

-- The two inner loops: some operation of one list has the key of some operation of the other.
abbrev pub ops_conflict : List Operation → List Operation → Bool
ops_conflict ops0 ops1 = any (λ op0. any (λ op1. str_eq op0.key op1.key) ops1) ops0

-- deps[i] = -1, for each i of allReps
pub init_deps : List ℕ → List ℤ → Result (List ℤ)
init_deps [] deps = ok deps
init_deps (i ∷ is) deps = and_then (assign deps (pos i) (negsuc 0)) (λ deps'. init_deps is deps')

-- What one entry does to maxSeq and deps[rep].
unfoldable pub scan_entry : List Operation → ℕ → ℕ → Instance → ℤ × List ℤ → Result (ℤ × List ℤ)
scan_entry ops rep i inst (max_seq, deps) =
    if ops_conflict inst.ops ops && ltb_ℤ max_seq inst.seq
    then and_then (assign deps (pos rep) (pos i)) (λ deps'. ok (inst.seq, deps'))
    else ok (max_seq, deps)

-- for i := len(repLogs) - 1; i >= 0; i--, with `k` entries left to visit
unfoldable pub scan_log : List Operation → ℕ → Log → ℕ → ℤ × List ℤ → Result (ℤ × List ℤ)
scan_log ops rep entries zero acc = ok acc
scan_log ops rep entries (suc i) acc = and_then (deref (get_elem? entries i)) (λ entry.
    and_then (deref entry)
      (λ inst. and_then (scan_entry ops rep i inst acc) (λ acc'. scan_log ops rep entries i acc')))

unfoldable pub scan_logs : List Operation → ℕ → List Log → ℤ × List ℤ → Result (ℤ × List ℤ)
scan_logs ops rep [] acc = ok acc
scan_logs ops rep (entries ∷ logs) acc =
    and_then (scan_log ops rep entries (length entries) acc)
      (λ acc'. scan_logs ops (rep + 1) logs acc')

unfoldable pub find_max_conflict : Replica → List Operation → Result (ℤ × List ℤ)
unfolding init_deps
find_max_conflict r ops =
    and_then (init_deps r.all_reps (replicate r.n (pos 0)))
      (λ deps. scan_logs ops 0 r.logs (pos 0, deps))
