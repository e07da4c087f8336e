-- ===== src/Epaxos/System.antt =====
-- A cluster of replicas of sylan/p4/partB/replica/replica.go, as a step relation. Each step is one
-- call of a goroutine; a message that was sent may arrive late, in any order, more than once or
-- never.
pub mod Reachable
mod Examples
use cmsc818e.Prelude.{
  ℕ, ◌<◌, ◌+◌, ℤ, Bool, List, [], ◌++◌, Option, none, some, ◌≡◌, get_elem?, take, drop, Result, ok,
  ◌==◌, if◌then◌else◌,
}
use cmsc818e.Epaxos.Messages.{Operation, PeerRequest, MsgContainer}
use cmsc818e.Epaxos.State.{Replica}
use cmsc818e.Epaxos.Init.{init}
use cmsc818e.Epaxos.Handlers.{run_commit}
use cmsc818e.Epaxos.Execute.{Node, Graph}
use cmsc818e.Epaxos.Dispatch.{Event, receive, tick, idle, propose, reply_all, big_dispatcher}

-- A replica, and the queue of its dispatcher.
pub record Member : Type 0 where
  pub replica : Replica
  pub queue : List MsgContainer

abbrev pub System : Type 0
System = ℕ → Member

-- The replicas as main of each starts them.
unfoldable pub start : Bool → ℕ → System
unfolding init
start thrifty n i = record { replica = init thrifty n i; queue = [] }

abbrev pub update : System → ℕ → Member → System
update sys i m j = if i == j then m else sys j

-- The message that Dispatch puts into bigchan for a request of a peer.
unfoldable pub peer_container : PeerRequest → MsgContainer
peer_container req = record { client_op = none; client_chan = none; peer_msg = some req }

abbrev pub without {ℓ} : {A : Type ℓ} → List A → ℕ → List A
without xs k = take k xs ++ drop (k + 1) xs

-- What replica i of n may take from bigchan: an operation of a client, or what a replica has sent
-- to it, the request on channel i of its outChannels.
pub data Received (n : ℕ) (sys : System) (i : ℕ) : MsgContainer → Type 0 where
  from_client : (chan : ℕ) (op : Operation) → Received n sys i (propose chan op)
  from_peer :
      (j k : ℕ) (req : PeerRequest)
      → j < n
      → get_elem? (sys j).replica.out k ≡ some (i, req)
      → Received n sys i (peer_container req)

-- The case of the select may be taken.
abbrev pub Offered : ℕ → System → ℕ → Event → Type 0
Offered n sys i (receive e) = Received n sys i e
Offered n sys i tick = Unit {0}
Offered n sys i idle = Unit {0}

module _ (connections : Graph → List (List Node))
    (sort : (Node → Node → Result Bool) → List Node → Result (List Node)) where
  pub data Step (n : ℕ) (sys : System) : System → Type 0 where
    -- one iteration of bigDispatcher
    dispatches :
        (i : ℕ) (e : Event) (q : List MsgContainer) (s : Replica)
        → i < n
        → Offered n sys i e
        → big_dispatcher connections sort (sys i).queue e (sys i).replica ≡ ok (q, s)
        → Step n sys (update sys i (record { replica = s; queue = q }))
    -- a goroutine that runs commit
    commits :
        (i k rep : ℕ) (slot : ℤ) (s : Replica)
        → i < n
        → get_elem? (sys i).replica.pending k ≡ some (rep, slot)
        → run_commit rep slot
            (record (sys i).replica { pending = without (sys i).replica.pending k })
          ≡ ok (tt, s)
        → Step n sys (update sys i (record { replica = s; queue = (sys i).queue }))
    -- a goroutine of batching that was woken
    replies :
        (i k : ℕ) (msgs : List MsgContainer) (slot : ℤ) (s : Replica)
        → i < n
        → get_elem? (sys i).replica.woken k ≡ some (msgs, slot)
        → reply_all slot 0 msgs (record (sys i).replica { woken = without (sys i).replica.woken k })
          ≡ ok (tt, s)
        → Step n sys (update sys i (record { replica = s; queue = (sys i).queue }))

  pub data Reaches (thrifty : Bool) (n : ℕ) : System → Type 0 where
    starts : Reaches thrifty n (start thrifty n)
    steps : {a b : System} → Reaches thrifty n a → Step n a b → Reaches thrifty n b
