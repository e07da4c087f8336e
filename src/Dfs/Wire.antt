-- ===== src/Dfs/Wire.antt =====
-- Nodes in the store: the messages of sylan/p2/pb/dfs.proto, and importProtoNode, exportProtoNode,
-- SHA1, getNode, putNode, getHead's and putHead's encodings of sylan/p2/dfs/fs.go.
pub mod Roundtrip
use cmsc818e.Prelude.{
  ℕ, ◌+◌, String, List, [], Option, none, some, Result, ok, panic, and_then, deref, Bool, true,
  false,
}
use cmsc818e.Prelude.Dict.{Dict}
use cmsc818e.Dfs.Chunks.{Bytes}
use cmsc818e.Dfs.State.{
  Ptr, Attr, Node, Fs, Cmd, zero_node, pure, ◌>>=◌, ◌>>◌, get, lift, new_node, set_node, node_at,
}

pub record PbAttr : Type 0 where
  pub valid : ℕ
  pub inode : ℕ
  pub size : ℕ
  pub blocks : ℕ
  pub atime : ℕ
  pub mtime : ℕ
  pub ctime : ℕ
  pub crtime : ℕ
  pub file_mode : ℕ
  pub nlink : ℕ
  pub uid : ℕ
  pub gid : ℕ
  pub rdev : ℕ
  pub flags : ℕ
  pub block_size : ℕ

pub record PbNode : Type 0 where
  pub name : String
  pub attrs : Option PbAttr
  pub version : ℕ
  pub prev_sig : String
  pub child_sigs : Dict String
  pub data_blocks : List String

pub record PbHead : Type 0 where
  pub root : String
  pub next_ind : ℕ

-- The libraries: leveldb, SHA-1 with its base64, and protocol buffers, which may fail.
pub record Env (S : Type 0) : Type 0 where
  pub db_put : String → Bytes → S → S
  pub db_get : S → String → Option Bytes
  pub sha1 : Bytes → String
  -- the bytes depend on the order in which the map of the message is gone through
  pub marshal : (order : ℕ) → PbNode → Option Bytes
  pub unmarshal : Bytes → Option PbNode
  pub marshal_head : PbHead → Option Bytes
  pub unmarshal_head : Bytes → Option PbHead

-- time.Unix(0, int64(t)) and uint64(UnixNano()), of times within the range of an int64, keep the number.
abbrev pub import_attrs : PbAttr → Attr
import_attrs a = record {
  valid = a.valid;
  inode = a.inode;
  size = a.size;
  blocks = a.blocks;
  mode = a.file_mode;
  nlink = a.nlink;
  uid = a.uid;
  gid = a.gid;
  rdev = a.rdev;
  flags = a.flags;
  block_size = a.block_size;
  mtime = a.mtime;
  ctime = a.ctime;
  crtime = a.crtime;
  atime = a.atime;
}

-- importProtoNode into a new node; a message without attributes is a nil dereference.
unfoldable pub import_node : PbNode → Result Node
import_node m = and_then (deref m.attrs) (λ a. ok (record zero_node {
  name = m.name;
  version = m.version;
  prev_sig = m.prev_sig;
  load_from_db = true;
  attrs = import_attrs a;
  child_sigs = m.child_sigs;
  data_blocks = m.data_blocks;
}))

abbrev pub export_attrs : Attr → PbAttr
export_attrs a = record {
  valid = a.valid;
  inode = a.inode;
  size = a.size;
  blocks = a.blocks;
  file_mode = a.mode;
  nlink = a.nlink;
  uid = a.uid;
  gid = a.gid;
  rdev = a.rdev;
  flags = a.flags;
  block_size = a.block_size;
  mtime = a.mtime;
  atime = a.atime;
  ctime = a.ctime;
  crtime = a.crtime;
}

-- What exportProtoNode marshals.
unfoldable pub export_node : Node → PbNode
export_node n = record {
  attrs = some (export_attrs n.attrs);
  name = n.name;
  version = n.version;
  prev_sig = n.prev_sig;
  child_sigs = n.child_sigs;
  data_blocks = n.data_blocks;
}

abbrev pub text_or_empty : Option String → String
text_or_empty none = ""
text_or_empty (some t) = t

module _ {S : Type 0} (env : Env S) where
  abbrev pub sig_of_bytes : Option Bytes → String
  sig_of_bytes none = ""
  sig_of_bytes (some bytes) = env.sha1 bytes

  -- SHA1 of a node, encoded in some order: "" where it does not marshal
  unfoldable pub sig_of : (order : ℕ) → Node → String
  sig_of order n = sig_of_bytes (env.marshal order (export_node n))

  -- The order that the next encoding of a node goes by.
  unfoldable pub next_order : Cmd S ℕ
  next_order s = ok (s.orders 0, record s { orders = λ i. s.orders (i + 1) })

  -- importProtoNode and the signature that getNode sets
  unfoldable pub decode_message : String → Option PbNode → Result (Option Node)
  decode_message key none = ok none
  decode_message key (some m) = and_then (import_node m) (λ n. ok (some (record n { sig = key })))

  -- The node that the bytes of a store entry hold, as getNode makes it.
  unfoldable pub decode_node : String → Option Bytes → Result (Option Node)
  unfolding decode_message
  decode_node key none = ok none
  decode_node key (some bytes) = decode_message key (env.unmarshal bytes)

  unfoldable pub alloc_found : Option Node → Cmd S (Option Ptr)
  alloc_found none = pure none
  alloc_found (some n) = do p ← new_node n; pure (some p)

  -- The empty name is a key that no entry has; db.Get answers for it like for any other.
  unfoldable pub get_node : String → Cmd S (Option Ptr)
  unfolding alloc_found
  get_node key = do s ← get; found ← lift (decode_node key (env.db_get s.db key)); alloc_found found

  unfoldable pub put_bytes : String → Option Bytes → Cmd S (Unit {0})
  put_bytes key none s = ok (tt, s)
  put_bytes key (some value) s = ok (tt, record s { db = env.db_put key value s.db })

  unfoldable pub put_node : Node → Cmd S (Unit {0})
  unfolding put_bytes next_order
  put_node n = do order ← next_order; put_bytes n.sig (env.marshal order (export_node n))

  -- getNode, then a dereference of what it returns
  unfoldable pub get_existing : String → Cmd S Ptr
  unfolding get_node
  get_existing key = do found ← get_node key; lift (deref found)
