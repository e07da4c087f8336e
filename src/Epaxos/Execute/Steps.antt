-- ===== src/Epaxos/Execute/Steps.antt =====
-- executeSome as a sequence of single executions.
use cmsc818e.Prelude.{
  ℕ, zero, suc, String, ◌+◌, ℤ, pos, negsuc, true, false, Bool, List, [], ◌∷◌, ◌++◌, Option, none,
  some, ◌≡◌, refl, sym, ap, ◌∙◌, arith, eqb_ℤ, if◌then◌else◌, get_elem?, Result, ok, and_then-eq-ok,
  ok-injective, index, assign, deref, replicate,
}
use mathlib.Core.Path.{subst}
use native.Mathlib.Nat.{add-zero}
use cmsc818e.Epaxos.Messages.{Bytes, Instance, executed, MsgContainer}
use cmsc818e.Epaxos.State.{Log, Replica, pure, log_at, log_assign}
use cmsc818e.Epaxos.State.Inversion.{lift-eq-ok, >>=-eq-ok}
use cmsc818e.Epaxos.State.View.{entry_at, Writes, log_assign-Stored, log_at-entry_at}
use cmsc818e.Epaxos.Execute.{
  Node, Graph, Returned, execute_ops, fire, fire_trigger, execute, is_decided, is_committed,
  decided_entry, deps_decided, is_later, set_last, note_executed, notify, run_ready, run_node,
  visit_inst, visit_node, run_scc, run_sccs, sort_all, graph_of_logs, execute_some,
}

-- Each dependence that is a slot is committed or executed here.
abbrev pub DepsDecided : List Log → List ℤ → Type 0
DepsDecided logs deps =
    (rep s : ℕ)
    → get_elem? deps rep ≡ some (pos s)
    → (other : Instance) × (entry_at logs rep s ≡ some other) × (is_decided other.state ≡ true)

-- The instance after it has been executed over a store.
abbrev pub after_execution : Instance → (String → Option Bytes) → Instance
after_execution inst kv = record inst { ops = (execute_ops inst.ops kv).0; state = executed }

-- What an execution works on: the logs, and the store of keys and values.
abbrev pub Contents : Type 0
Contents = List Log × (String → Option Bytes)

abbrev pub contents : Replica → Contents
contents r = (r.logs, r.kvmap)

-- One execution: a committed instance with decided dependences, applied to the store.
pub record Runs (a b : Contents) : Type 0 where
  pub rep : ℕ
  pub slot : ℕ
  pub inst : Instance
  pub here : entry_at a.0 rep slot ≡ some inst
  pub is_ready : is_committed inst.state ≡ true
  pub decided : DepsDecided a.0 inst.deps
  pub writes : Writes a.0 b.0 rep slot (some (after_execution inst a.1))
  pub applied : b.1 ≡ (execute_ops inst.ops a.1).1

pub data Executions : Contents → Contents → Type 0 where
  done : {a b : Contents} → a ≡ b → Executions a b
  next : {a b c : Contents} → Runs a b → Executions b c → Executions a c

pub Executions-trans : {a b c : Contents} → Executions a b → Executions b c → Executions a c
Executions-trans {c = c} (done e) later = subst (λ x. Executions x c) (sym e) later
Executions-trans (next run rest) later = next run (Executions-trans rest later)

pos-injective : {m n : ℕ} → pos m ≡ pos n → m ≡ n
pos-injective e = cc

deps_decided-cons :
    (logs : List Log) (base k : ℕ) (ds : List ℤ)
    → deps_decided logs base (pos k ∷ ds) ≡ ok true
    → (other : Instance) × (log_at logs (pos base) (pos k) ≡ ok (some other))
      × (is_decided other.state ≡ true)
      × (deps_decided logs (base + 1) ds ≡ ok true)
unfolding deps_decided
deps_decided-cons logs base k ds h =
    let (e, read, h1) = and_then-eq-ok (log_at logs (pos base) (pos k)) _ h in
    split e read (decided_entry e) refl h1
  where
    split :
        (e : Option Instance)
        → log_at logs (pos base) (pos k) ≡ ok e
        → (b : Bool) → decided_entry e ≡ b
        → (if b then deps_decided logs (base + 1) ds else ok false) ≡ ok true
        → (other : Instance) × (log_at logs (pos base) (pos k) ≡ ok (some other))
          × (is_decided other.state ≡ true)
          × (deps_decided logs (base + 1) ds ≡ ok true)
    split e read false d g = cc
    split none read true d g = cc
    split (some other) read true d g = (other, read, d, g)

deps_decided-DepsDecided :
    (logs : List Log) (base : ℕ) (ds : List ℤ)
    → deps_decided logs base ds ≡ ok true
    → (j s : ℕ) → get_elem? ds j ≡ some (pos s)
    → (other : Instance) × (entry_at logs (base + j) s ≡ some other)
      × (is_decided other.state ≡ true)
unfolding deps_decided
deps_decided-DepsDecided logs base [] h j s at = cc
deps_decided-DepsDecided logs base (negsuc k ∷ ds) h zero s at = cc
deps_decided-DepsDecided logs base (negsuc k ∷ ds) h (suc j) s at =
    let idx : base + 1 + j ≡ base + suc j = omega arith in
    rw idx at (deps_decided-DepsDecided logs (base + 1) ds h j s at)
deps_decided-DepsDecided logs base (pos k ∷ ds) h zero s at =
    let (other, read, decided, rest) = deps_decided-cons logs base k ds h in
    let (i, same, found) = log_at-entry_at logs base (pos k) (some other) read refl in
    let is : i ≡ s = cc in (other, rw (is, ← add-zero base) at found, decided)
deps_decided-DepsDecided logs base (pos k ∷ ds) h (suc j) s at =
    let (other, read, decided, rest) = deps_decided-cons logs base k ds h in
    let idx : base + 1 + j ≡ base + suc j = omega arith in
    rw idx at (deps_decided-DepsDecided logs (base + 1) ds rest j s at)

-- A command that touches neither the logs nor the store.
abbrev Keeps : Replica → Replica → Type 0
Keeps r s = (s.logs ≡ r.logs) × (s.kvmap ≡ r.kvmap)

Keeps-contents : (r s : Replica) → Keeps r s → contents r ≡ contents s
Keeps-contents r s (l, k) = cc

fire_trigger-Keeps : (slot : ℤ) (r s : Replica) → fire_trigger slot r ≡ ok (tt, s) → Keeps r s
unfolding fire_trigger
fire_trigger-Keeps slot r s h = split (r.triggers slot) h
  where
    split : (o : Option (List (List MsgContainer))) → fire o slot r ≡ ok (tt, s) → Keeps r s
    split none g = cc
    split (some []) g = cc
    split (some (q ∷ qs)) g =
        let e = ap (λ p. p.1) (ok-injective g) in
        (ap (λ t. t.logs) (sym e), ap (λ t. t.kvmap) (sym e))

note_executed-Keeps : (n : Node) (r s : Replica) → note_executed n r ≡ ok (tt, s) → Keeps r s
unfolding note_executed set_last
note_executed-Keeps n r s h =
    let (last, read, h1) = lift-eq-ok (index r.executed (pos n.rep)) _ r h in
    let (later, tested, h2) = lift-eq-ok (is_later r.logs n last) (set_last n) r h1 in
    split later h2
  where
    split : (later : Bool) → set_last n later r ≡ ok (tt, s) → Keeps r s
    split true g =
        let (last', written, e) = and_then-eq-ok (assign r.executed (pos n.rep) n.slot) _ g in
        let same = ap (λ p. p.1) (ok-injective e) in
        (ap (λ t. t.logs) (sym same), ap (λ t. t.kvmap) (sym same))
    split false g =
        let same = ap (λ p. p.1) (ok-injective g) in
        (ap (λ t. t.logs) (sym same), ap (λ t. t.kvmap) (sym same))

notify-Keeps :
    (serves mine : Bool) (slot : ℤ) (r s : Replica)
    → notify serves mine slot r ≡ ok (tt, s)
    → Keeps r s
unfolding notify
notify-Keeps true true slot r s h = fire_trigger-Keeps slot r s h
notify-Keeps true false slot r s h =
    let same = ap (λ p. p.1) (ok-injective h) in
    (ap (λ t. t.logs) (sym same), ap (λ t. t.kvmap) (sym same))
notify-Keeps false mine slot r s h =
    let same = ap (λ p. p.1) (ok-injective h) in
    (ap (λ t. t.logs) (sym same), ap (λ t. t.kvmap) (sym same))

-- What execute leaves, the trigger fired or not.
execute-eq-ok :
    (rep : ℕ) (slot : ℤ) (inst inst' : Instance) (r s : Replica)
    → execute rep slot inst r ≡ ok (inst', s)
    → (logs' : List Log) × (log_assign r.logs (pos rep) slot (after_execution inst r.kvmap)
        ≡ ok logs')
      × (s.logs ≡ logs')
      × (s.kvmap ≡ (execute_ops inst.ops r.kvmap).1)
unfolding execute
execute-eq-ok rep slot inst inst' r s h =
    let inst1 = after_execution inst r.kvmap in
    let (logs, written, h1) = lift-eq-ok (log_assign r.logs (pos rep) slot inst1) _ r h in
    let r1 : Replica = record r { logs = logs; kvmap = (execute_ops inst.ops r.kvmap).1 } in
    let fire_it = notify r.server_mode (eqb_ℤ (pos r.me) inst.rep) inst.slot in
    let (_, t, fired, h2) = >>=-eq-ok fire_it (λ _. pure inst1) r1 h1 in
    let (keeps_logs, keeps_kv) =
      notify-Keeps r.server_mode (eqb_ℤ (pos r.me) inst.rep) inst.slot r1 t fired in
    let same : t ≡ s = ap (λ p. p.1) (ok-injective h2) in
    (
      logs,
      written,
      ap (λ u. u.logs) (sym same) ∙ keeps_logs,
      ap (λ u. u.kvmap) (sym same) ∙ keeps_kv,
    )

-- The rest of a run after execute leaves logs and store as they are.
run_ready-Runs :
    (n : Node) (inst : Instance) (ret : Returned) (r s : Replica) {res : Returned × Bool} (k : ℕ)
    → n.slot ≡ pos k
    → entry_at r.logs n.rep k ≡ some inst
    → is_committed inst.state ≡ true
    → deps_decided r.logs 0 inst.deps ≡ ok true
    → run_ready n inst ret true r ≡ ok (res, s)
    → Runs (contents r) (contents s)
unfolding run_ready
run_ready-Runs n inst ret r s k slot here is_ready decided h =
    let (inst', r1, ran, h1) = >>=-eq-ok (execute n.rep n.slot inst) _ r h in
    let (done_here, found, h2) = lift-eq-ok (index ret (pos n.rep)) _ r1 h1 in
    let (ret', set_to, h3) =
      lift-eq-ok (assign ret (pos n.rep) (done_here ++ inst' ∷ [])) _ r1 h2 in
    let (_, r2, noted, h4) = >>=-eq-ok (note_executed n) (λ _. pure (ret', false)) r1 h3 in
    let same : r2 ≡ s = ap (λ p. p.1) (ok-injective h4) in
    let (logs_kept, kv_kept) = note_executed-Keeps n r1 r2 noted in
    let (logs', written, to_logs, to_kv) = execute-eq-ok n.rep n.slot inst inst' r r1 ran in
    let stored =
      log_assign-Stored r.logs (pos n.rep) n.slot (after_execution inst r.kvmap) written in
    let all_logs : s.logs ≡ logs' = ap (λ u. u.logs) (sym same) ∙ logs_kept ∙ to_logs in
    let at_rep : stored.r ≡ n.rep = pos-injective (sym stored.at_rep) in
    let at_slot : stored.s ≡ k = pos-injective (sym stored.at_slot ∙ slot) in
    record {
      rep = n.rep;
      slot = k;
      inst = inst;
      here = here;
      is_ready = is_ready;
      decided = λ j i at_j.
          let start : 0 + j ≡ j = omega arith in
          rw start at (deps_decided-DepsDecided r.logs 0 inst.deps decided j i at_j);
      writes = λ i j. rw (all_logs, ← at_rep, ← at_slot) (stored.writes i j);
      applied = ap (λ u. u.kvmap) (sym same) ∙ kv_kept ∙ to_kv;
    }

run_node-Executions :
    (n : Node) (inst : Instance) (ret : Returned) (r s : Replica) {res : Returned × Bool} (k : ℕ)
    → n.slot ≡ pos k
    → entry_at r.logs n.rep k ≡ some inst
    → is_committed inst.state ≡ true
    → run_node n inst ret r ≡ ok (res, s)
    → Executions (contents r) (contents s)
unfolding run_node run_ready
run_node-Executions n inst ret r s {res} k slot here is_ready h =
    let (ready, tested, h1) =
      lift-eq-ok (deps_decided r.logs 0 inst.deps) (run_ready n inst ret) r h in
    split ready tested h1
  where
    split :
        (ready : Bool)
        → deps_decided r.logs 0 inst.deps ≡ ok ready
        → run_ready n inst ret ready r ≡ ok (res, s)
        → Executions (contents r) (contents s)
    split true tested g =
        next (run_ready-Runs n inst ret r s k slot here is_ready tested g) (done refl)
    split false tested g = done (ap (λ p. contents p.1) (ok-injective g))

visit_node-Executions :
    (n : Node) (ret : Returned) (r s : Replica) {res : Returned × Bool}
    → visit_node n ret r ≡ ok (res, s)
    → Executions (contents r) (contents s)
unfolding visit_node visit_inst
visit_node-Executions n ret r s {res} h =
    let (entry, read, h1) = lift-eq-ok (log_at r.logs (pos n.rep) n.slot) _ r h in
    let (inst, filled, h2) = lift-eq-ok (deref entry) _ r h1 in
    let (k, slot, here) = log_at-entry_at r.logs n.rep n.slot entry read filled in
    split inst k slot here (is_committed inst.state) refl h2
  where
    split :
        (inst : Instance) (k : ℕ)
        → n.slot ≡ pos k
        → entry_at r.logs n.rep k ≡ some inst
        → (b : Bool) → is_committed inst.state ≡ b
        → visit_inst n inst ret b r ≡ ok (res, s)
        → Executions (contents r) (contents s)
    split inst k slot here true is_ready g =
        run_node-Executions n inst ret r s k slot here is_ready g
    split inst k slot here false is_ready g = done (ap (λ p. contents p.1) (ok-injective g))

run_scc-Executions :
    (scc : List Node) (ret : Returned) (r s : Replica) {res : Returned × Bool}
    → run_scc scc ret r ≡ ok (res, s)
    → Executions (contents r) (contents s)
unfolding run_scc
run_scc-Executions [] ret r s h = done (ap (λ p. contents p.1) (ok-injective h))
run_scc-Executions (n ∷ ns) ret r s {res} h =
    let (res1, r1, visited, h1) =
      >>=-eq-ok (visit_node n ret)
        (λ (ret', stop). if stop then pure (ret', true) else run_scc ns ret') r h in
    Executions-trans (visit_node-Executions n ret r r1 visited)
      (go_on res1.0 res1.1 r1 (λ g. run_scc-Executions ns res1.0 r1 s g) h1)
  where
    go_on :
        (ret' : Returned) (stop : Bool) (r1 : Replica)
        → (run_scc ns ret' r1 ≡ ok (res, s) → Executions (contents r1) (contents s))
        → (if stop then pure (ret', true) else run_scc ns ret') r1 ≡ ok (res, s)
        → Executions (contents r1) (contents s)
    go_on ret' true r1 rest g = done (ap (λ p. contents p.1) (ok-injective g))
    go_on ret' false r1 rest g = rest g

run_sccs-Executions :
    (sccs : List (List Node)) (ret : Returned) (r s : Replica) {res : Returned}
    → run_sccs sccs ret r ≡ ok (res, s)
    → Executions (contents r) (contents s)
unfolding run_sccs
run_sccs-Executions [] ret r s h = done (ap (λ p. contents p.1) (ok-injective h))
run_sccs-Executions (scc ∷ sccs) ret r s {res} h =
    let (res1, r1, ran, h1) =
      >>=-eq-ok (run_scc scc ret) (λ (ret', stop). if stop then pure ret' else run_sccs sccs ret') r
        h in
    Executions-trans (run_scc-Executions scc ret r r1 ran)
      (go_on res1.0 res1.1 r1 (λ g. run_sccs-Executions sccs res1.0 r1 s g) h1)
  where
    go_on :
        (ret' : Returned) (stop : Bool) (r1 : Replica)
        → (run_sccs sccs ret' r1 ≡ ok (res, s) → Executions (contents r1) (contents s))
        → (if stop then pure ret' else run_sccs sccs ret') r1 ≡ ok (res, s)
        → Executions (contents r1) (contents s)
    go_on ret' true r1 rest g = done (ap (λ p. contents p.1) (ok-injective g))
    go_on ret' false r1 rest g = rest g

-- Whatever components the graph search and the sort give, a call of executeSome that returns has
-- run a sequence of executions, each of one committed instance whose dependences are all committed
-- or executed; each sets that instance to executed with the results of its reads, and nothing else.
pub execute_some-Executions :
    (connections : Graph → List (List Node))
    → (sort : (Node → Node → Result Bool) → List Node → Result (List Node)) (r s : Replica)
    → {ret : Returned} → execute_some connections sort r ≡ ok (ret, s)
    → Executions (contents r) (contents s)
unfolding execute_some
execute_some-Executions connections sort r s h =
    let (graph, built, h1) = lift-eq-ok (graph_of_logs r.logs 0 r.logs) _ r h in
    let (ordered, sorted, h2) = lift-eq-ok (sort_all sort r.logs (connections graph)) _ r h1 in
    run_sccs-Executions ordered (replicate r.n []) r s h2
