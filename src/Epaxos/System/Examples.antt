-- ===== src/Epaxos/System/Examples.antt =====
-- A cluster of three: replica 0 proposes a write of a client, and replica 1 answers its PREACCEPT.
use cmsc818e.Prelude.{
  ℕ, Bool, Result, panic, blocked, length, pos, negsuc, true, false, List, [], ◌∷◌, ◌≡◌, refl, ok,
  arith,
}
use cmsc818e.Epaxos.Messages.{Operation, MsgContainer, PeerRequest, preaccept, preaccepted}
use cmsc818e.Epaxos.State.{Replica}
use cmsc818e.Epaxos.Init.{init, thrifty_reps_of, next_reps}
use cmsc818e.Epaxos.Handlers.{
  handle_proposition, handle_preaccept_request, merge_instance, merge_deps,
}
use cmsc818e.Epaxos.Conflicts.{find_max_conflict, scan_logs, scan_log}
use cmsc818e.Epaxos.Execute.{Node, Graph}
use cmsc818e.Epaxos.Dispatch.{
  Event, receive, idle, propose, put_op, big_dispatcher, receive_msg, flush_queue, batching,
  dispatch_peer,
}
use cmsc818e.Epaxos.System.{
  System, Member, start, update, peer_container, from_client, from_peer, dispatches, Reaches,
  starts, steps,
}
use cmsc818e.Epaxos.System.Reachable.{AllSound, Reaches-AllSound}

abbrev write : Operation
write = put_op "k" (1 ∷ []) "c"

abbrev alone : Graph → List (List Node)
alone [] = []
alone ((n, deps) ∷ graph) = (n ∷ []) ∷ alone graph

abbrev keep_order : (Node → Node → Result Bool) → List Node → Result (List Node)
keep_order less ns = ok ns

-- A member after an iteration of its dispatcher.
abbrev result : Result (List MsgContainer × Replica) → Member → Member
result (ok (q, s)) m = record { replica = s; queue = q }
result panic m = m
result blocked m = m

abbrev iterate : System → ℕ → Event → Member
iterate sys i e = result (big_dispatcher alone keep_order (sys i).queue e (sys i).replica) (sys i)

-- Replica 0 takes the operation into its queue, and proposes it when nothing else is there.
abbrev queued : System
queued = update (start true 3) 0 (iterate (start true 3) 0 (receive (propose 7 write)))

abbrev proposed : System
proposed = update queued 0 (iterate queued 0 idle)

abbrev request : PeerRequest
request = record {
  from = pos 0;
  message = preaccept (record {
    rep = pos 0;
    slot = pos 0;
    seq = pos 1;
    deps = negsuc 0 ∷ negsuc 0 ∷ negsuc 0 ∷ [];
    state = preaccepted;
    changed = false;
    ops = write ∷ [];
  });
}

-- Replica 1 receives the request.
abbrev answered : System
answered = update proposed 1 (iterate proposed 1 (receive (peer_container request)))

queued-Reaches : Reaches alone keep_order true 3 queued
unfolding big_dispatcher receive_msg propose put_op start init
queued-Reaches =
    steps starts
      (dispatches 0 (receive (propose 7 write)) _ _ (omega arith) (from_client 7 write) refl)

proposed-Reaches : Reaches alone keep_order true 3 proposed
unfolding big_dispatcher receive_msg propose put_op start init thrifty_reps_of next_reps flush_queue
    batching handle_proposition find_max_conflict scan_logs scan_log
proposed-Reaches = steps queued-Reaches (dispatches 0 idle _ _ (omega arith) tt refl)

answered-Reaches : Reaches alone keep_order true 3 answered
unfolding big_dispatcher receive_msg propose put_op start init thrifty_reps_of next_reps flush_queue
    batching handle_proposition find_max_conflict scan_logs scan_log peer_container dispatch_peer
    handle_preaccept_request merge_instance merge_deps
answered-Reaches = steps proposed-Reaches (
    dispatches 1 (receive (peer_container request)) _ _ (omega arith)
      (from_peer 0 0 request (omega arith) refl) refl)

-- The reply is on its way to replica 0.
answered_out : length (answered 1).replica.out ≡ 1
unfolding big_dispatcher receive_msg propose put_op start init thrifty_reps_of next_reps flush_queue
    batching handle_proposition find_max_conflict scan_logs scan_log peer_container dispatch_peer
    handle_preaccept_request merge_instance merge_deps
answered_out = refl

Reaches-AllSound_example : AllSound 3 answered
Reaches-AllSound_example = Reaches-AllSound alone keep_order true 3 answered answered-Reaches
