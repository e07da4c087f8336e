-- ===== src/Epaxos/Sound/Peers.antt =====
-- The invariant over the switch of bigDispatcher on the messages of peers.
use cmsc818e.Prelude.{ℕ, ℤ, ◌≡◌, ok}
use cmsc818e.Epaxos.Messages.{Message, preaccept, preacceptreply, accept, acceptreply, commit}
use cmsc818e.Epaxos.State.{Replica}
use cmsc818e.Epaxos.Dispatch.{dispatch_peer}
use cmsc818e.Epaxos.Sound.{IsWellFormed, IsSound}
use cmsc818e.Epaxos.Sound.Handlers.{
  handle_preaccept_request-IsSound, handle_accept_request-IsSound, handle_accept_reply-IsSound,
  handle_commit-IsSound,
}
use cmsc818e.Epaxos.Sound.Replies.{handle_preaccept_reply-IsSound}

-- Whatever message of a peer is handled, the replica keeps its invariant, if the message is well
-- formed: every logged instance is that of its replica and its slot and has N dependences, the
-- shape of the cluster is unchanged, and every message sent so far is well formed in turn.
pub dispatch_peer-IsSound :
    {n me : ℕ} (from : ℤ) (m : Message) (r s : Replica)
    → dispatch_peer from m r ≡ ok (tt, s)
    → IsWellFormed r.n from m
    → IsSound n me r
    → IsSound n me s
unfolding dispatch_peer
dispatch_peer-IsSound from (preaccept inst) r s h good sound =
    handle_preaccept_request-IsSound from inst r s h good sound
dispatch_peer-IsSound from (preacceptreply reply) r s h good sound =
    handle_preaccept_reply-IsSound from reply r s h sound
dispatch_peer-IsSound from (accept inst) r s h good sound =
    handle_accept_request-IsSound from inst r s h good sound
dispatch_peer-IsSound from (acceptreply slot) r s h good sound =
    handle_accept_reply-IsSound from slot r s h sound
dispatch_peer-IsSound from (commit inst) r s h good sound =
    handle_commit-IsSound from inst r s h good sound
