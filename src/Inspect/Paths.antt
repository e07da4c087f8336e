-- ===== src/Inspect/Paths.antt =====
-- The path lookup of sylan/p2/protoget.go and that of sylan/p2/dfs/fs.go.
use cmsc818e.Prelude.{
  String, Bool-cases, List, [], ◌∷◌, Option, none, some, ◌≡◌, refl, ap, ◌∙◌, inl, inr, Result, ok,
  panic, blocked, and_then,
}
use cmsc818e.Prelude.Dict.{find}
use cmsc818e.Dfs.Chunks.{Bytes}
use cmsc818e.Dfs.State.{Ptr, Node, Fs, node_at, lift, ◌>>=◌}
use cmsc818e.Dfs.State.Heap.{bind_of, node_at_of, set_cell_self}
use cmsc818e.Dfs.Wire.{Env, PbNode, PbAttr, decode_node, decode_message, alloc_found, text_or_empty}
use cmsc818e.Dfs.Wire.{get_node as fs_get_node, import_node as fs_import_node}
use cmsc818e.Dfs.Save.{is_empty_path, get_path_node as fs_get_path_node}
use cmsc818e.Inspect.{DNode, import_bytes, import_message, import_node, get_node, get_path_node}

-- What the inspector has of a node of the file system.
abbrev pub view : Node → DNode
view n = record {
  name = n.name;
  attrs = n.attrs;
  version = n.version;
  prev_sig = n.prev_sig;
  child_sigs = n.child_sigs;
  data_blocks = n.data_blocks;
}

abbrev pub view_cell : Option Node → Result (Option DNode)
view_cell none = panic
view_cell (some n) = ok (some (view n))

module _ {S : Type 0} where
  -- The node that a lookup of the file system has found.
  abbrev pub found : Result (Option Ptr × Fs S) → Result (Option DNode)
  found (ok (none, t)) = ok none
  found (ok (some p, t)) = view_cell (t.heap p)
  found panic = panic
  found blocked = blocked

module _ {S : Type 0} (env : Env S) (db : S) where
  -- The lookup of the rest of a path from what is found for a name, in the inspector.
  abbrev from_bytes : List String → Option Bytes → Result (Option DNode)
  from_bytes rest o =
      and_then (import_bytes (env.db_get db) env.unmarshal env.unmarshal_head o)
        (λ n2. get_path_node (env.db_get db) env.unmarshal env.unmarshal_head n2 rest)

  abbrev from_message : List String → Option PbNode → Result (Option DNode)
  from_message rest o =
      and_then (import_message (env.db_get db) env.unmarshal env.unmarshal_head o)
        (λ n2. get_path_node (env.db_get db) env.unmarshal env.unmarshal_head n2 rest)

  -- The lookups agree on the rest of a path, from every node that is in memory.
  abbrev AgreeOn : List String → Type 0
  AgreeOn rest =
      (p : Ptr) (n : Node) (s : Fs S)
      → s.heap p ≡ some n
      → s.db ≡ db
      → found (fs_get_path_node env (some p) rest s)
        ≡ get_path_node (env.db_get db) env.unmarshal env.unmarshal_head (some (view n)) rest

  abbrev fs_rest : String → List String → Result (Option Node) → Fs S → Result (Option DNode)
  fs_rest key rest r s = found ((lift r >>= alloc_found env >>= λ f. fs_get_path_node env f rest) s)

  message_agrees :
      (key : String) (rest : List String) (s : Fs S) (oa : Option PbAttr) (m : PbNode)
      → s.db ≡ db
      → AgreeOn rest
      → fs_rest key rest (decode_message env key (some (record m { attrs = oa }))) s
        ≡ from_message rest (some (record m { attrs = oa }))
  unfolding decode_message alloc_found fs_import_node import_message import_node
  message_agrees key rest s none m same ih = refl
  message_agrees key rest s (some a) m same ih =
      ih s.next_ptr _ _ (set_cell_self s.heap s.next_ptr _) same

  bytes_agree :
      (key : String) (rest : List String) (s : Fs S) (o : Option Bytes)
      → s.db ≡ db
      → AgreeOn rest
      → fs_rest key rest (decode_node env key o) s ≡ from_bytes rest o
  unfolding decode_node decode_message alloc_found import_bytes import_message get_path_node
      fs_get_path_node
  bytes_agree key rest s none same ih = refl
  bytes_agree key rest s (some b) same ih = decoded (env.unmarshal b)
    where
      decoded :
          (o : Option PbNode) → fs_rest key rest (decode_message env key o) s ≡ from_message rest o
      decoded none = refl
      decoded (some m) = message_agrees key rest s m.attrs m same ih

  path_agrees : (path : List String) → AgreeOn path
  unfolding fs_get_path_node get_path_node fs_get_node get_node
  path_agrees [] p n s at same = ap view_cell at
  path_agrees (name ∷ rest) p n s at same = elim (Bool-cases (is_empty_path (name ∷ rest))) [
    | inl here ↦ rw here (ap view_cell at)
    | inr deeper ↦
        let key = text_or_empty (find name n.child_sigs) in
        let step : found (
              (node_at p >>= λ k.
              (fs_get_node env (text_or_empty (find name k.child_sigs)) >>= λ f.
              fs_get_path_node env f rest))
                s)
            ≡ fs_rest key rest (decode_node env key (env.db_get s.db key)) s =
          ap found (bind_of (node_at p) _ s (node_at_of p s at)) in
        let stores : fs_rest key rest (decode_node env key (env.db_get s.db key)) s
            ≡ fs_rest key rest (decode_node env key (env.db_get db key)) s =
          ap (λ d. fs_rest key rest (decode_node env key (env.db_get d key)) s) same in
        rw deeper
          (step ∙ stores ∙ bytes_agree key rest s (env.db_get db key) same (path_agrees rest))
  ]

-- From every node in memory and on every path, getPathNode of the inspector returns what
-- getPathNode of the file system returns over the same store: the same node, nil for a path that
-- leads to no node, and a panic for a message without attributes.
pub get_path_node-view :
    {S : Type 0} (env : Env S) (p : Ptr) (n : Node) (s : Fs S) (path : List String)
    → s.heap p ≡ some n
    → found (fs_get_path_node env (some p) path s)
      ≡ get_path_node (env.db_get s.db) env.unmarshal env.unmarshal_head (some (view n)) path
get_path_node-view env p n s path at = path_agrees env s.db path p n s at refl
