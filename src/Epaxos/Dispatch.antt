-- ===== src/Epaxos/Dispatch.antt =====
-- batching and bigDispatcher of sylan/p4/partB/replica/replica.go, and the entry points of the
-- clients. One iteration of the dispatcher's select is a step of its queue and the replica.
use cmsc818e.Prelude.{
  ℕ, String, suc, ℤ, pos, Bool, true, false, List, [], ◌∷◌, ◌++◌, Option, none, some, if◌then◌else◌,
  Result, ok, and_then, index, deref,
}
use cmsc818e.Epaxos.Messages.{
  Bytes, Operation, AccessType, access_write, access_read, access_writeread, access_del, Message,
  preaccept, preacceptreply, accept, acceptreply, commit, MsgContainer,
}
use cmsc818e.Epaxos.State.{Cmd, pure, ◌>>=◌, ◌>>◌, get, put, lift, insert, log_at}
use cmsc818e.Epaxos.Handlers.{
  handle_proposition, handle_preaccept_request, handle_preaccept_reply, handle_accept_request,
  handle_accept_reply, handle_commit,
}
use cmsc818e.Epaxos.Execute.{Node, Graph, execute_some}

abbrev pub operation : AccessType → String → Bytes → String → Operation
operation t k v i = record { type = t; key = k; value = v; identity = i }

-- The operations that Get, Put and Del propose.
unfoldable pub get_op : String → String → Operation
get_op key identity = operation access_read key [] identity

unfoldable pub put_op : String → Bytes → String → Operation
put_op key value identity = operation access_write key value identity

unfoldable pub del_op : String → Operation
del_op key = operation access_del key [] ""

abbrev pub wants_reply : AccessType → Bool
wants_reply access_read = true
wants_reply access_writeread = true
wants_reply _ = false

-- The message that Propose puts into bigchan; `chan` is the new channel it waits on, if it waits.
unfoldable pub propose : ℕ → Operation → MsgContainer
propose chan op = record {
  client_op = some op;
  client_chan = if wants_reply op.type then some chan else none;
  peer_msg = none;
}

-- ops[idx] = msg.clientOp, for each message of the queue
abbrev pub queue_ops : List MsgContainer → Result (List Operation)
queue_ops [] = ok []
queue_ops (msg ∷ queue) =
    and_then (deref msg.client_op) (λ op. and_then (queue_ops queue) (λ ops. ok (op ∷ ops)))

abbrev pub waiting_on : Option (List (List MsgContainer)) → List (List MsgContainer)
waiting_on none = []
waiting_on (some queues) = queues

unfoldable pub batching : List MsgContainer → Cmd (Unit {0})
batching queue = do
  ops ← lift (queue_ops queue)
  slot ← handle_proposition ops
  r ← get
  put (record r {
    triggers = insert r.triggers slot (some (waiting_on (r.triggers slot) ++ queue ∷ []));
  })

-- e.clientChan <- proposeReply, for a client that waits
unfoldable pub reply_one : ℤ → ℕ → Option ℕ → Cmd (Unit {0})
reply_one slot idx none = pure tt
reply_one slot idx (some chan) = do
  r ← get
  entry ← lift (log_at r.logs (pos r.me) slot)
  inst ← lift (deref entry)
  op ← lift (index inst.ops (pos idx))
  put (record r { replies = r.replies ++ (chan, record { slot = slot; value = op.value }) ∷ [] })

-- The rest of a batching goroutine, once its trigger has fired.
unfoldable pub reply_all : ℤ → ℕ → List MsgContainer → Cmd (Unit {0})
reply_all slot idx [] = pure tt
reply_all slot idx (e ∷ queue) = do reply_one slot idx e.client_chan; reply_all slot (suc idx) queue

-- The switch on the message of a peer.
unfoldable pub dispatch_peer : ℤ → Message → Cmd (Unit {0})
dispatch_peer from (preaccept inst) = handle_preaccept_request from inst
dispatch_peer from (preacceptreply reply) = handle_preaccept_reply from reply
dispatch_peer from (accept inst) = handle_accept_request from inst
dispatch_peer from (acceptreply slot) = handle_accept_reply from slot
dispatch_peer from (commit inst) = handle_commit from inst

-- `if len(queue) > 0 { batching(queue); queue = empty }`
unfoldable pub flush_queue : List MsgContainer → Cmd (Unit {0})
flush_queue [] = pure tt
flush_queue (msg ∷ queue) = batching (msg ∷ queue)

unfoldable pub receive_msg :
    List MsgContainer → MsgContainer → Option Operation → Cmd (List MsgContainer)
receive_msg queue e (some op) = pure (queue ++ e ∷ [])
receive_msg queue e none = do
  flush_queue queue
  req ← lift (deref e.peer_msg)
  dispatch_peer req.from req.message
  pure []

-- A case of the select: a message, the ticker, or the default.
pub data Event : Type 0 where
  receive : MsgContainer → Event
  tick : Event
  idle : Event

-- One iteration of bigDispatcher; the result is the new queue.
module _ (connections : Graph → List (List Node))
    (sort : (Node → Node → Result Bool) → List Node → Result (List Node)) where
  unfoldable pub big_dispatcher : List MsgContainer → Event → Cmd (List MsgContainer)
  big_dispatcher queue (receive e) = receive_msg queue e e.client_op
  big_dispatcher queue tick = do ret ← execute_some connections sort; pure queue
  big_dispatcher queue idle = do flush_queue queue; pure []
