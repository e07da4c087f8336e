-- ===== src/Epaxos/Execute/Examples.antt =====
-- Replica 0 executes its one committed instance: the theorems on executeSome at this input.
use cmsc818e.Prelude.{
  pos, negsuc, true, false, Bool, List, [], ◌∷◌, none, some, ◌≡◌, refl, Result, ok,
}
use cmsc818e.Epaxos.Messages.{Operation, Instance, InstState, committed, executed, access_write}
use cmsc818e.Epaxos.State.{Replica, insert, insert_key}
use cmsc818e.Epaxos.State.View.{entry_at}
use cmsc818e.Epaxos.Execute.{
  Node, Graph, execute_some, graph_of_logs, graph_of_log, valid_deps, check_valid, run_sccs,
  run_scc, visit_node, visit_inst, run_node, run_ready, deps_decided, execute, execute_ops,
  execute_op, notify, fire_trigger, fire, note_executed, is_later, set_last,
}
use cmsc818e.Epaxos.Execute.Steps.{Executions, contents, execute_some-Executions}
use cmsc818e.Epaxos.Execute.Entries.{Kept, execute_some-Kept}

abbrev write : Operation
write = record { type = access_write; key = "k"; value = 1 ∷ []; identity = "c" }

abbrev inst_in : InstState → Instance
inst_in state = record {
  rep = pos 0;
  slot = pos 0;
  seq = pos 1;
  deps = negsuc 0 ∷ negsuc 0 ∷ negsuc 0 ∷ [];
  state = state;
  changed = false;
  ops = write ∷ [];
}

abbrev ready : Replica
ready = record {
  n = 3;
  me = 0;
  server_mode = true;
  thrifty_reps = 1 ∷ [];
  all_reps = 0 ∷ 1 ∷ 2 ∷ [];
  logs = (some (inst_in committed) ∷ []) ∷ [] ∷ [] ∷ [];
  reply_count = λ _. none;
  committed = λ _. none;
  executed = negsuc 0 ∷ negsuc 0 ∷ negsuc 0 ∷ [];
  kvmap = λ _. none;
  triggers = insert (λ _. none) (pos 0) (some ([] ∷ []));
  woken = [];
  pending = [];
  out = [];
  replies = [];
}

abbrev finished : Replica
finished = record ready {
  logs = (some (inst_in executed) ∷ []) ∷ [] ∷ [] ∷ [];
  executed = pos 0 ∷ negsuc 0 ∷ negsuc 0 ∷ [];
  kvmap = insert_key (λ _. none) "k" (some (1 ∷ []));
  triggers = insert (insert (λ _. none) (pos 0) (some ([] ∷ []))) (pos 0) (some []);
  woken = ([], pos 0) ∷ [];
}

-- Each vertex alone, in the order found.
abbrev alone : Graph → List (List Node)
alone [] = []
alone ((n, deps) ∷ graph) = (n ∷ []) ∷ alone graph

abbrev keep_order : (Node → Node → Result Bool) → List Node → Result (List Node)
keep_order less ns = ok ns

ready-finished :
    execute_some alone keep_order ready ≡ ok ((inst_in executed ∷ []) ∷ [] ∷ [] ∷ [], finished)
unfolding execute_some graph_of_logs graph_of_log valid_deps check_valid run_sccs run_scc visit_node
    visit_inst run_node run_ready deps_decided execute execute_ops execute_op notify fire_trigger
    fire note_executed is_later set_last
ready-finished = refl

execute_some-Executions_example : Executions (contents ready) (contents finished)
execute_some-Executions_example =
    execute_some-Executions alone keep_order ready finished ready-finished

execute_some-Kept_example : Kept (entry_at ready.logs 0 0) (entry_at finished.logs 0 0)
execute_some-Kept_example = execute_some-Kept alone keep_order ready finished ready-finished 0 0
