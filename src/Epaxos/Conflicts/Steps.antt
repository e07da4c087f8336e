-- ===== src/Epaxos/Conflicts/Steps.antt =====
-- The loops of findMaxConflict, one round at a time: what a successful round has read.
use cmsc818e.Prelude.{
  ℕ, suc, ◌+◌, ℤ, List, ◌∷◌, some, ◌≡◌, ok, and_then-eq-ok, get_elem?, deref, deref-eq-ok, length,
  replicate, pos, zero, [], sym, ap, ◌∙◌, arith,
}
use mathlib.Core.Path.{subst}
use native.Mathlib.Nat.{add-zero}
use cmsc818e.Epaxos.Messages.{Operation, Instance}
use cmsc818e.Epaxos.State.{Log, Replica}
use cmsc818e.Epaxos.Conflicts.{init_deps, scan_entry, scan_log, scan_logs, find_max_conflict}

-- Slot `i` of the log of replica `rep` holds the instance.
abbrev pub Holds : List Log → ℕ → ℕ → Instance → Type 0
Holds logs rep i inst =
    (entries : Log) × (get_elem? logs rep ≡ some entries) × (get_elem? entries i ≡ some (some inst))

pub record Round (ops : List Operation) (rep : ℕ) (entries : Log) (k : ℕ) (acc acc' : ℤ × List ℤ)
    : Type 0 where
  pub inst : Instance
  pub mid : ℤ × List ℤ
  pub found : get_elem? entries k ≡ some (some inst)
  pub first : scan_entry ops rep k inst acc ≡ ok mid
  pub rest : scan_log ops rep entries k mid ≡ ok acc'

pub scan_log-Round :
    (ops : List Operation) (rep : ℕ) (entries : Log) (k : ℕ) (acc acc' : ℤ × List ℤ)
    → scan_log ops rep entries (suc k) acc ≡ ok acc'
    → Round ops rep entries k acc acc'
unfolding scan_log
scan_log-Round ops rep entries k acc acc' h =
    let (entry, at, h1) = and_then-eq-ok (deref (get_elem? entries k)) _ h in
    let (inst, filled, h2) = and_then-eq-ok (deref entry) _ h1 in
    let (mid, first, rest) = and_then-eq-ok (scan_entry ops rep k inst acc) _ h2 in
    record {
      inst = inst;
      mid = mid;
      found = cc (deref-eq-ok _ at, deref-eq-ok _ filled);
      first = first;
      rest = rest;
    }

pub scan_logs-cons :
    (ops : List Operation) (rep : ℕ) (entries : Log) (logs : List Log) (acc acc' : ℤ × List ℤ)
    → scan_logs ops rep (entries ∷ logs) acc ≡ ok acc'
    → (mid : ℤ × List ℤ) × (scan_log ops rep entries (length entries) acc ≡ ok mid)
      × (scan_logs ops (rep + 1) logs mid ≡ ok acc')
unfolding scan_logs
scan_logs-cons ops rep entries logs acc acc' h =
    and_then-eq-ok (scan_log ops rep entries (length entries) acc) _ h

pub find_max_conflict-ok :
    (r : Replica) (ops : List Operation) {acc : ℤ × List ℤ}
    → find_max_conflict r ops ≡ ok acc
    → (deps : List ℤ) × (init_deps r.all_reps (replicate r.n (pos 0)) ≡ ok deps)
      × (scan_logs ops 0 r.logs (pos 0, deps) ≡ ok acc)
unfolding find_max_conflict
find_max_conflict-ok r ops h = and_then-eq-ok (init_deps r.all_reps (replicate r.n (pos 0))) _ h

-- What every entry keeps, the whole scan keeps; `all` is the log that the scan has started from.
module _ {κ} (ops : List Operation) (all : List Log) (P : ℤ × List ℤ → Type κ)
    (keep : (rep i : ℕ) (inst : Instance) (acc acc' : ℤ × List ℤ)
      → Holds all rep i inst
      → scan_entry ops rep i inst acc ≡ ok acc'
      → P acc
      → P acc') where
  scan_log-induct :
      (rep : ℕ) (entries : Log) (k : ℕ) (acc acc' : ℤ × List ℤ)
      → get_elem? all rep ≡ some entries
      → scan_log ops rep entries k acc ≡ ok acc'
      → P acc
      → P acc'
  unfolding scan_log
  scan_log-induct rep entries zero acc acc' at h p = let e : acc ≡ acc' = cc in subst P e p
  scan_log-induct rep entries (suc k) acc acc' at h p =
      let round = scan_log-Round ops rep entries k acc acc' h in
      let mid = keep rep k round.inst acc round.mid (entries, at, round.found) round.first p in
      scan_log-induct rep entries k round.mid acc' at round.rest mid

  pub scan_logs-induct :
      (rep : ℕ) (logs : List Log) (acc acc' : ℤ × List ℤ)
      → ((j : ℕ) → get_elem? logs j ≡ get_elem? all (rep + j))
      → scan_logs ops rep logs acc ≡ ok acc'
      → P acc
      → P acc'
  unfolding scan_logs
  scan_logs-induct rep [] acc acc' part h p = let e : acc ≡ acc' = cc in subst P e p
  scan_logs-induct rep (entries ∷ logs) acc acc' part h p =
      let (mid, first, rest) = scan_logs-cons ops rep entries logs acc acc' h in
      let at : get_elem? all rep ≡ some entries = rw (add-zero rep) at (sym (part 0)) in
      let shift : (j : ℕ) → get_elem? logs j ≡ get_elem? all (rep + 1 + j) =
        λ j. part (suc j) ∙ ap (get_elem? all) (omega arith) in
      scan_logs-induct (rep + 1) logs mid acc' shift rest
        (scan_log-induct rep entries (length entries) acc mid at first p)
