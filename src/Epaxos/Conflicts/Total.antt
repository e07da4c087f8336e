-- ===== src/Epaxos/Conflicts/Total.antt =====
-- When findMaxConflict returns, and when it dereferences a nil entry of a log.
use cmsc818e.Prelude.{
  ℕ, zero, suc, ◌+◌, ◌≤◌, ◌<◌, ℤ, pos, negsuc, List, [], ◌∷◌, some, Option, ◌≡◌, refl, ◌↔◌, arith,
  length, ok, ok-injective, Result, get_elem?, set, All, All-get_elem?, get_elem?_of_lt, length-set,
  assign_of_lt, Bool-cases, inl, inr, ◌&&◌, ltb_ℤ, replicate, length-replicate, ap, ◌∙◌, sym,
}
use native.Mathlib.Nat.{le_refl, le-suc_iff}
use cmsc818e.Epaxos.Messages.{Operation, Instance}
use cmsc818e.Epaxos.State.{Log, Replica}
use cmsc818e.Epaxos.Init.{range}
use cmsc818e.Epaxos.Conflicts.{ops_conflict, scan_entry, scan_log, scan_logs, find_max_conflict}
use cmsc818e.Epaxos.Conflicts.Steps.{scan_log-Round, scan_logs-cons, find_max_conflict-ok}
use cmsc818e.Epaxos.Conflicts.Deps.{init_deps-replicate}

abbrev pub IsFilled : Option Instance → Type 0
IsFilled e = (inst : Instance) × (e ≡ some inst)

-- No entry is nil.
abbrev pub IsFull : Log → Type 0
IsFull entries = All IsFilled entries

-- A result, with as many dependences as before.
abbrev Returns : Result (ℤ × List ℤ) → ℕ → Type 0
Returns res n = (acc : ℤ × List ℤ) × (res ≡ ok acc) × (length acc.1 ≡ n)

module _ (ops : List Operation) (rep : ℕ) where
  scan_entry-Returns :
      (i : ℕ) (inst : Instance) (acc : ℤ × List ℤ)
      → rep < length acc.1
      → Returns (scan_entry ops rep i inst acc) (length acc.1)
  unfolding scan_entry
  scan_entry-Returns i inst (m, ds) lt =
      elim (Bool-cases (ops_conflict inst.ops ops && ltb_ℤ m inst.seq)) [
        | inl hit ↦ (
          (inst.seq, set ds rep (pos i)),
          rw (hit, assign_of_lt ds rep (pos i) lt),
          length-set ds rep (pos i),
        )
        | inr miss ↦ ((m, ds), rw miss, refl)
      ]

  scan_log-Returns :
      (entries : Log) (k : ℕ) (acc : ℤ × List ℤ)
      → IsFull entries
      → k ≤ length entries
      → rep < length acc.1
      → Returns (scan_log ops rep entries k acc) (length acc.1)
  unfolding scan_log
  scan_log-Returns entries zero acc full le lt = (acc, refl, refl)
  scan_log-Returns entries (suc k) acc full le lt =
      let (e, at) = get_elem?_of_lt entries k le in
      let (inst, filled) = All-get_elem? IsFilled entries k full at in
      let (mid, first, same) = scan_entry-Returns k inst acc lt in
      let (end, rest, same') = scan_log-Returns entries k mid full (omega arith) (omega arith) in
      (end, rw (at, filled, first) rest, same' ∙ same)

scan_logs-Returns :
    (ops : List Operation) (rep : ℕ) (logs : List Log) (acc : ℤ × List ℤ)
    → All IsFull logs
    → rep + length logs ≤ length acc.1
    → Returns (scan_logs ops rep logs acc) (length acc.1)
unfolding scan_logs
scan_logs-Returns ops rep [] acc full le = (acc, refl, refl)
scan_logs-Returns ops rep (entries ∷ logs) acc full le =
    let (mid, first, same) =
      scan_log-Returns ops rep entries (length entries) acc full.0 (le_refl _) (omega arith) in
    let (end, rest, same') = scan_logs-Returns ops (rep + 1) logs mid full.1 (omega arith) in
    (end, rw first rest, same' ∙ same)

-- The scan of a log has met an instance at every index.
scan_log-filled :
    (ops : List Operation) (rep : ℕ) (entries : Log) (k : ℕ) (acc acc' : ℤ × List ℤ)
    → scan_log ops rep entries k acc ≡ ok acc'
    → (i : ℕ) → i < k
    → (inst : Instance) × (get_elem? entries i ≡ some (some inst))
scan_log-filled ops rep entries zero acc acc' h i lt = absurd (omega arith)
scan_log-filled ops rep entries (suc k) acc acc' h i lt =
    let round = scan_log-Round ops rep entries k acc acc' h in
    elim (le-suc_iff.0 lt) [
      | inl below ↦ scan_log-filled ops rep entries k round.mid acc' round.rest i below
      | inr last ↦ let idx : i ≡ k = omega arith in (round.inst, rw idx round.found)
    ]

IsFull-get_elem? :
    (entries : Log)
    → ((i : ℕ) → i < length entries → (inst : Instance) × (get_elem? entries i ≡ some (some inst)))
    → IsFull entries
IsFull-get_elem? [] h = tt
IsFull-get_elem? (e ∷ entries) h =
    let (inst, at) = h 0 (omega arith) in
    ((inst, cc), IsFull-get_elem? entries (λ i lt. h (suc i) (omega arith)))

scan_logs-IsFull :
    (ops : List Operation) (rep : ℕ) (logs : List Log) (acc acc' : ℤ × List ℤ)
    → scan_logs ops rep logs acc ≡ ok acc'
    → All IsFull logs
scan_logs-IsFull ops rep [] acc acc' h = tt
scan_logs-IsFull ops rep (entries ∷ logs) acc acc' h =
    let (mid, first, rest) = scan_logs-cons ops rep entries logs acc acc' h in
    (
      IsFull-get_elem? entries (scan_log-filled ops rep entries (length entries) acc mid first),
      scan_logs-IsFull ops (rep + 1) logs mid acc' rest,
    )

-- With a log for no more than N replicas and every replica in allReps, findMaxConflict returns, and
-- with N dependences, exactly when no entry of a log is nil; else it panics or does not return.
pub find_max_conflict_total :
    (r : Replica) (ops : List Operation)
    → r.all_reps ≡ range 0 r.n
    → length r.logs ≤ r.n
    → All IsFull r.logs ↔ Returns (find_max_conflict r ops) r.n
unfolding find_max_conflict
find_max_conflict_total r ops all le = (
  λ full.
      let (acc, scanned, same) =
        scan_logs-Returns ops 0 r.logs (pos 0, replicate r.n (negsuc 0)) full
          (omega (arith, length-replicate r.n (negsuc 0))) in
      (acc, rw (all, init_deps-replicate r.n) scanned, same ∙ length-replicate r.n (negsuc 0)),
  λ (acc, h, same).
      let (start, begun, scanned) = find_max_conflict-ok r ops h in
      scan_logs-IsFull ops 0 r.logs (pos 0, start) acc scanned,
)

-- Whatever findMaxConflict returns has N dependences.
pub find_max_conflict-length :
    (r : Replica) (ops : List Operation) (acc : ℤ × List ℤ)
    → r.all_reps ≡ range 0 r.n
    → length r.logs ≤ r.n
    → find_max_conflict r ops ≡ ok acc
    → length acc.1 ≡ r.n
find_max_conflict-length r ops acc all le h =
    let (start, begun, scanned) = find_max_conflict-ok r ops h in
    let full = scan_logs-IsFull ops 0 r.logs (pos 0, start) acc scanned in
    let (acc', h', len) = (find_max_conflict_total r ops all le).0 full in
    ap (λ a. length a.1) (ok-injective (sym h ∙ h')) ∙ len
