-- ===== src/Epaxos/Messages.antt =====
-- Operations, instances and peer messages: sylan/p4/partB/pb/comm.proto, and the containers of
-- sylan/p4/partB/replica/replica.go. A []byte is the list of its bytes, nil is the empty list.
use cmsc818e.Prelude.{ℕ, String, ℤ, Bool, List, Option}

abbrev pub Bytes : Type 0
Bytes = List ℕ

pub data AccessType : Type 0 where
  access_write access_read access_writeread access_del access_pause access_null : AccessType

pub record Operation : Type 0 where
  pub type : AccessType
  pub key : String
  pub value : Bytes
  pub identity : String

pub data InstState : Type 0 where
  initial preaccepted accepted committed executed : InstState

-- The fields Acks and Visited, which no code of the replica touches, are left out.
pub record Instance : Type 0 where
  pub rep : ℤ
  pub slot : ℤ
  pub seq : ℤ
  pub deps : List ℤ
  pub state : InstState
  pub changed : Bool
  pub ops : List Operation

pub record PreacceptReply : Type 0 where
  pub seq : ℤ
  pub slot : ℤ
  pub deps : List ℤ
  pub changed : Bool

-- The `oneof message` of a PeerRequest; the Type field repeats which one is set.
pub data Message : Type 0 where
  preaccept : Instance → Message
  preacceptreply : PreacceptReply → Message
  accept : Instance → Message
  acceptreply : ℤ → Message
  commit : Instance → Message

pub record PeerRequest : Type 0 where
  pub from : ℤ
  pub message : Message

pub record ProposeReply : Type 0 where
  pub slot : ℤ
  pub value : Bytes

-- A channel to a waiting client is the number of that client.
pub record MsgContainer : Type 0 where
  pub client_op : Option Operation
  pub client_chan : Option ℕ
  pub peer_msg : Option PeerRequest
