-- ===== src/Epaxos/Execute.antt =====
-- executeSome and execute of sylan/p4/partB/replica/replica.go. `tarjan.Connections` and `sort.Sort`
-- are arguments. A graph lists its vertices with their edges, in the order in which they are found.
pub mod Steps
pub mod Entries
pub mod Frame
mod Examples
use cmsc818e.Prelude.{
  ℕ, String, ℤ, pos, negsuc, Bool, true, false, List, [], ◌∷◌, ◌++◌, Option, none, some, ◌+◌, ltb,
  ltb_ℤ, eqb_ℤ, if◌then◌else◌, length, replicate, Result, ok, blocked, and_then, index, deref,
  assign,
}
use cmsc818e.Epaxos.Messages.{
  Bytes, Operation, AccessType, access_write, access_read, access_del, Instance, InstState,
  committed, executed, MsgContainer,
}
use cmsc818e.Epaxos.State.{
  Log, Cmd, pure, ◌>>=◌, ◌>>◌, get, put, lift, insert, insert_key, log_at, log_assign,
}

pub record Node : Type 0 where
  pub rep : ℕ
  pub slot : ℤ

abbrev pub Graph : Type 0
Graph = List (Node × List Node)

-- Whether x goes before y in its component. The source compares `y.rep < y.rep`, which never holds.
unfoldable pub node_less : List Log → Node → Node → Result Bool
node_less logs x y = and_then (and_then (log_at logs (pos x.rep) x.slot) deref) (λ inst_x.
    and_then (and_then (log_at logs (pos y.rep) y.slot) deref) (λ inst_y.
      ok (if eqb_ℤ inst_x.seq inst_y.seq then ltb y.rep y.rep else ltb_ℤ inst_x.seq inst_y.seq)))

abbrev pub is_some {ℓ} : {A : Type ℓ} → Option A → Bool
is_some none = false
is_some (some _) = true

-- The test after `n.slot >= 0`: the slot lies in the log of the replica, and holds an instance.
unfoldable pub check_slot : List Log → ℕ → ℕ → Result Bool
check_slot logs rep s = and_then (index logs (pos rep)) (λ entries.
    if ltb s (length entries)
    then and_then (index entries (pos s)) (λ entry. ok (is_some entry))
    else ok false)

unfoldable pub check_valid : List Log → ℕ → ℤ → Result Bool
unfolding check_slot
check_valid logs rep (negsuc k) = ok false
check_valid logs rep (pos s) = check_slot logs rep s

-- The edges of one instance: its valid dependences, from replica `rep` on.
unfoldable pub valid_deps : List Log → ℕ → List ℤ → Result (List Node)
valid_deps logs rep [] = ok []
valid_deps logs rep (d ∷ ds) =
    let n : Node = record { rep = rep; slot = d } in
    and_then (check_valid logs rep d) (λ valid.
      and_then (valid_deps logs (rep + 1) ds) (λ nodes. ok (if valid then n ∷ nodes else nodes)))

unfoldable pub graph_of_log : List Log → ℕ → ℕ → Log → Result Graph
graph_of_log logs rep slot [] = ok []
graph_of_log logs rep slot (none ∷ entries) = graph_of_log logs rep (slot + 1) entries
graph_of_log logs rep slot (some inst ∷ entries) = and_then (valid_deps logs 0 inst.deps) (λ deps.
    and_then (graph_of_log logs rep (slot + 1) entries)
      (λ graph. ok ((record { rep = rep; slot = pos slot }, deps) ∷ graph)))

unfoldable pub graph_of_logs : List Log → ℕ → List Log → Result Graph
graph_of_logs logs rep [] = ok []
graph_of_logs logs rep (entries ∷ rest) =
    and_then (graph_of_log logs rep 0 entries)
      (λ graph. and_then (graph_of_logs logs (rep + 1) rest) (λ graph'. ok (graph ++ graph')))

-- The value that a read writes into its operation: nil where the key has none.
abbrev pub read_value : Option Bytes → Bytes
read_value none = []
read_value (some v) = v

-- The switch on the type of one operation.
unfoldable pub execute_op :
    AccessType → Operation → (String → Option Bytes) → Operation × (String → Option Bytes)
execute_op access_read op kv = (record op { value = read_value (kv op.key) }, kv)
execute_op access_write op kv = (op, insert_key kv op.key (some op.value))
execute_op access_del op kv = (op, insert_key kv op.key none)
execute_op _ op kv = (op, kv)

unfoldable pub execute_ops :
    List Operation → (String → Option Bytes) → List Operation × (String → Option Bytes)
execute_ops [] kv = ([], kv)
execute_ops (op ∷ ops) kv =
    let (op', kv') = execute_op op.type op kv in
    let (ops', kv'') = execute_ops ops kv' in (op' ∷ ops', kv'')

-- triggers[slot] <- true: a send waits for ever where no goroutine receives.
unfoldable pub fire : Option (List (List MsgContainer)) → ℤ → Cmd (Unit {0})
fire none slot r = blocked
fire (some []) slot r = blocked
fire (some (queue ∷ rest)) slot r = ok (
  tt,
  record r { triggers = insert r.triggers slot (some rest); woken = r.woken ++ (queue, slot) ∷ [] },
)

unfoldable pub fire_trigger : ℤ → Cmd (Unit {0})
unfolding fire
fire_trigger slot r = fire (r.triggers slot) slot r

-- In server mode the goroutines that wait on an instance of this replica are woken.
unfoldable pub notify : (serves mine : Bool) → ℤ → Cmd (Unit {0})
notify true true slot = fire_trigger slot
notify _ _ slot = pure tt

-- execute(logs[rep][slot]); the result is the instance after it.
unfoldable pub execute : ℕ → ℤ → Instance → Cmd Instance
execute rep slot inst = do
  r ← get
  let (ops, kv) = execute_ops inst.ops r.kvmap
  let inst' : Instance = record inst { ops = ops; state = executed }
  logs ← lift (log_assign r.logs (pos rep) slot inst')
  put (record r { logs = logs; kvmap = kv })
  notify r.server_mode (eqb_ℤ (pos r.me) inst.rep) inst.slot
  pure inst'

abbrev pub is_decided : InstState → Bool
is_decided committed = true
is_decided executed = true
is_decided _ = false

abbrev pub is_committed : InstState → Bool
is_committed committed = true
is_committed _ = false

abbrev pub decided_entry : Option Instance → Bool
decided_entry none = false
decided_entry (some inst) = is_decided inst.state

-- Whether every dependence, from replica `rep` on, is committed or executed here.
unfoldable pub deps_decided : List Log → ℕ → List ℤ → Result Bool
deps_decided logs rep [] = ok true
deps_decided logs rep (negsuc k ∷ ds) = deps_decided logs (rep + 1) ds
deps_decided logs rep (pos s ∷ ds) = and_then (log_at logs (pos rep) (pos s)) (λ entry.
    let rest = deps_decided logs (rep + 1) ds in if decided_entry entry then rest else ok false)

-- executed[rep] is -1, or the sequence number of its slot is lower than that of the node.
unfoldable pub is_later : List Log → Node → ℤ → Result Bool
is_later logs n last =
    if eqb_ℤ last (negsuc 0)
    then ok true
    else node_less logs (record { rep = n.rep; slot = last }) n

-- executed[rep] = slot, under that test.
unfoldable pub set_last : Node → Bool → Cmd (Unit {0})
set_last n false r = ok (tt, r)
set_last n true r =
    and_then (assign r.executed (pos n.rep) n.slot) (λ last. ok (tt, record r { executed = last }))

unfoldable pub note_executed : Node → Cmd (Unit {0})
note_executed n = do
  r ← get
  last ← lift (index r.executed (pos n.rep))
  later ← lift (is_later r.logs n last)
  set_last n later

-- The instances executed so far, for each replica; and breakFlag.
abbrev pub Returned : Type 0
Returned = List (List Instance)

unfoldable pub run_ready : Node → Instance → Returned → (ready : Bool) → Cmd (Returned × Bool)
run_ready n inst ret false = pure (ret, true)
run_ready n inst ret true = do
  inst' ← execute n.rep n.slot inst
  done ← lift (index ret (pos n.rep))
  ret' ← lift (assign ret (pos n.rep) (done ++ inst' ∷ []))
  note_executed n
  pure (ret', false)

unfoldable pub run_node : Node → Instance → Returned → Cmd (Returned × Bool)
run_node n inst ret = do
  r ← get
  ready ← lift (deps_decided r.logs 0 inst.deps)
  run_ready n inst ret ready

unfoldable pub visit_inst : Node → Instance → Returned → (is_ready : Bool) → Cmd (Returned × Bool)
visit_inst n inst ret true = run_node n inst ret
visit_inst n inst ret false = pure (ret, false)

unfoldable pub visit_node : Node → Returned → Cmd (Returned × Bool)
visit_node n ret = do
  r ← get
  entry ← lift (log_at r.logs (pos n.rep) n.slot)
  inst ← lift (deref entry)
  visit_inst n inst ret (is_committed inst.state)

-- The nodes of a component in order, until breakFlag is set.
unfoldable pub run_scc : List Node → Returned → Cmd (Returned × Bool)
run_scc [] ret = pure (ret, false)
run_scc (n ∷ ns) ret = do
  (ret', stop) ← visit_node n ret
  if stop then pure (ret', true) else run_scc ns ret'

unfoldable pub run_sccs : List (List Node) → Returned → Cmd Returned
run_sccs [] ret = pure ret
run_sccs (scc ∷ sccs) ret = do
  (ret', stop) ← run_scc scc ret
  if stop then pure ret' else run_sccs sccs ret'

abbrev pub sort_all :
    ((Node → Node → Result Bool) → List Node → Result (List Node))
    → List Log
    → List (List Node)
    → Result (List (List Node))
sort_all sort logs [] = ok []
sort_all sort logs (scc ∷ sccs) =
    and_then (sort (node_less logs) scc)
      (λ scc'. and_then (sort_all sort logs sccs) (λ sccs'. ok (scc' ∷ sccs')))

unfoldable pub execute_some :
    (connections : Graph → List (List Node))
    → (sort : (Node → Node → Result Bool) → List Node → Result (List Node)) → Cmd Returned
execute_some connections sort = do
  r ← get
  graph ← lift (graph_of_logs r.logs 0 r.logs)
  ordered ← lift (sort_all sort r.logs (connections graph))
  run_sccs ordered (replicate r.n [])
