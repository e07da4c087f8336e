-- ===== src/Majority.antt =====
-- The replica of sylan/p4/partA/replica/replica.go: it proposes slots, counts the answers, and commits a
-- slot to the others once a majority has answered.
pub mod Sent
pub mod Once
mod Examples
use cmsc818e.Prelude.{
  ℕ, zero, suc, String, ◌+◌, ◌*◌, ℤ, pos, negsuc, Bool, true, false, List, [], ◌∷◌, ◌++◌, Option,
  none, some, leb, ltb, ◌==◌, eqb_ℤ, suc_int64, if◌then◌else◌, Result, ok, panic, and_then,
}

pub data InstState : Type 0 where
  preaccepted accepted executed : InstState

-- The fields of an instance that are not set to anything are left out.
pub record Instance : Type 0 where
  pub rep : ℤ
  pub slot : ℤ
  pub state : InstState

-- The `oneof message` of a PeerRequest.
pub data Message : Type 0 where
  preaccept : Instance → Message
  preacceptreply : (slot : ℤ) → Message
  accept : Instance → Message
  acceptreply : (slot : ℤ) → Message
  commit : Instance → Message

pub record PeerRequest : Type 0 where
  pub from : ℤ
  pub message : Message

pub record Operation : Type 0 where
  pub key : String
  pub value : List ℕ
  pub identity : String

-- A channel to a waiting client is the number of that client.
pub record MsgContainer : Type 0 where
  pub client_op : Option Operation
  pub client_chan : ℕ
  pub peer_msg : Option PeerRequest

pub record Replica : Type 0 where
  pub n : ℕ
  pub me : ℕ
  pub g_seq : ℤ
  pub reply_count : ℤ → Option ℕ
  pub committed : ℤ → Option Bool
  -- messages handed to outChannels, and slots handed to the clients' channels
  pub out : List (ℕ × PeerRequest)
  pub replies : List (ℕ × ℤ)

abbrev pub insert : {V : Type 0} → (ℤ → Option V) → ℤ → Option V → ℤ → Option V
insert m k v j = if eqb_ℤ k j then v else m j

-- for i := 0; i < N; i++ { if i != me { outChannels[i] <- req } }, from i on with k rounds left
unfoldable pub to_others : (me i k : ℕ) → PeerRequest → List (ℕ × PeerRequest)
to_others me i zero req = []
to_others me i (suc k) req =
    let rest = to_others me (i + 1) k req in if i == me then rest else (i, req) ∷ rest

-- wrapPreacceptRequest and its like: a message from this replica.
abbrev pub peer_request : Replica → Message → PeerRequest
peer_request r m = record { from = pos r.me; message = m }

unfoldable pub send_others : Message → Replica → Replica
send_others m r = record r { out = r.out ++ to_others r.me 0 r.n (peer_request r m) }

unfoldable pub handle_proposition : Replica → Replica
handle_proposition r =
    let slot = suc_int64 r.g_seq in
    send_others (preaccept (record { rep = pos 0; slot = slot; state = preaccepted }))
      (record r { g_seq = slot })

-- outChannels[to] <- req
unfoldable pub send : ℤ → Message → Replica → Result Replica
send (pos i) m r =
    if ltb i r.n then ok (record r { out = r.out ++ (i, peer_request r m) ∷ [] }) else panic
send (negsuc i) m r = panic

unfoldable pub handle_preaccept_request : ℤ → Instance → Replica → Result Replica
handle_preaccept_request from inst r = send from (preacceptreply inst.slot) r

abbrev pub count_of : Option ℕ → ℕ
count_of none = 0
count_of (some c) = c

-- The count for a slot that is not committed, and the commit where it reaches a majority.
unfoldable pub count_reply : ℤ → Replica → Replica
unfolding send_others
count_reply slot r =
    let count = count_of (r.reply_count slot) + 1 in
    let s : Replica = record r { reply_count = insert r.reply_count slot (some count) } in
    if leb r.n (count * 2 + 1)
    then send_others (commit (record { rep = pos r.me; slot = slot; state = executed }))
        (record s { committed = insert r.committed slot (some true) })
    else s

unfoldable pub reply_for : Option Bool → ℤ → Replica → Replica
reply_for (some c) slot r = r
reply_for none slot r = count_reply slot r

unfoldable pub handle_preaccept_reply : ℤ → (slot : ℤ) → Replica → Replica
unfolding reply_for count_reply
handle_preaccept_reply from slot r = reply_for (r.committed slot) slot r

-- handleCommit, and messages that the dispatcher has no case for, change nothing.
unfoldable pub dispatch_message : ℤ → Message → Replica → Result Replica
dispatch_message from (preaccept inst) r = handle_preaccept_request from inst r
dispatch_message from (preacceptreply slot) r = ok (handle_preaccept_reply from slot r)
dispatch_message from _ r = ok r

unfoldable pub dispatch_client : ℕ → Replica → Replica
dispatch_client client r =
    let s = handle_proposition r in record s { replies = s.replies ++ (client, s.g_seq) ∷ [] }

unfoldable pub dispatch_peer : Option PeerRequest → Replica → Result Replica
unfolding dispatch_message
dispatch_peer none r = panic
dispatch_peer (some req) r = dispatch_message req.from req.message r

unfoldable pub dispatch_op : Option Operation → MsgContainer → Replica → Result Replica
unfolding dispatch_peer dispatch_client
dispatch_op (some op) e r = ok (dispatch_client e.client_chan r)
dispatch_op none e r = dispatch_peer e.peer_msg r

-- One iteration of bigDispatcher.
unfoldable pub dispatch : MsgContainer → Replica → Result Replica
unfolding dispatch_op
dispatch e r = dispatch_op e.client_op e r
