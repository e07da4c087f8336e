-- ===== src/Inspect.antt =====
-- The inspector of a store, sylan/p2/protoget.go: what it looks up and what it shows of it. The
-- store is the function `get` of db.Get; sort.Strings is an argument. The JSON of a message is
-- taken to be that message, and to be made without an error.
pub mod Paths
mod Examples
use cmsc818e.Prelude.{
  ℕ, String, Bool, true, false, List, [], ◌∷◌, ◌++◌, Option, none, some, if◌then◌else◌, length,
  Result, ok, and_then, deref, str_eq,
}
use cmsc818e.Prelude.Dict.{Dict, find}
use cmsc818e.Dfs.Chunks.{Bytes}
use cmsc818e.Dfs.State.{Attr, is_dir}
use cmsc818e.Dfs.Wire.{PbNode, PbHead, import_attrs, text_or_empty}
use cmsc818e.Dfs.Save.{is_empty_path}

pub record DNode : Type 0 where
  pub name : String
  pub attrs : Attr
  pub version : ℕ
  pub prev_sig : String
  pub child_sigs : Dict String
  pub data_blocks : List String

-- importProtoNode into a new node; a message without attributes is a nil dereference.
unfoldable pub import_node : PbNode → Result DNode
import_node m = and_then (deref m.attrs) (λ a. ok (record {
  name = m.name;
  attrs = import_attrs a;
  version = m.version;
  prev_sig = m.prev_sig;
  child_sigs = m.child_sigs;
  data_blocks = m.data_blocks;
}))

-- "%q  %s%s": the signature, the name, and whether "/" follows it
pub record Line : Type 0 where
  pub sig : String
  pub name : String
  pub slash : Bool

pub data Shown : Type 0 where
  nothing : Shown
  head_not_found : Shown
  listing : List Line → Shown
  node : DNode → Shown
  -- the node, and the lengths of its data blocks
  node_with_lens : DNode → List ℕ → Shown
  head : PbHead → Shown
  bytes : Bytes → Shown

abbrev pub keys {ℓ} : {V : Type ℓ} → Dict V → List String
keys [] = []
keys ((k, v) ∷ m) = k ∷ keys m

-- strings.TrimLeft(val, "/") of a path, which is the list of its components
unfoldable pub trim_left : List String → List String
trim_left [] = []
trim_left (name ∷ path) = let rest = trim_left path in if str_eq name "" then rest else name ∷ path

abbrev drop_last : String → List String → List String
drop_last name [] = if str_eq name "" then [] else name ∷ []
drop_last name (next ∷ rest) = name ∷ next ∷ rest

-- strings.TrimRight(val, "/")
unfoldable pub trim_right : List String → List String
trim_right [] = []
trim_right (name ∷ path) = drop_last name (trim_right path)

module _ (get : String → Option Bytes) (unmarshal : Bytes → Option PbNode)
    (unmarshal_head : Bytes → Option PbHead) where
  -- A block that is not there is nil, of length 0.
  unfoldable pub get_block : String → Bytes
  get_block key = value_of (get key)
    where
      value_of : Option Bytes → Bytes
      value_of none = []
      value_of (some value) = value

  abbrev pub import_head : Option Bytes → Option PbHead
  import_head none = none
  import_head (some b) = unmarshal_head b

  unfoldable pub get_head : Option PbHead
  get_head = import_head (get "head")

  unfoldable pub import_message : Option PbNode → Result (Option DNode)
  unfolding import_node
  import_message none = ok none
  import_message (some m) = and_then (import_node m) (λ n. ok (some n))

  unfoldable pub import_bytes : Option Bytes → Result (Option DNode)
  unfolding import_message
  import_bytes none = ok none
  import_bytes (some b) = import_message (unmarshal b)

  unfoldable pub get_node : String → Result (Option DNode)
  unfolding import_bytes
  get_node key = import_bytes (get key)

  unfoldable pub get_path_node : Option DNode → List String → Result (Option DNode)
  unfolding get_node
  get_path_node none path = ok none
  get_path_node (some n) [] = ok (some n)
  get_path_node (some n) (name ∷ rest) =
      let next =
        and_then (get_node (text_or_empty (find name n.child_sigs)))
          (λ n2. get_path_node n2 rest) in
      if is_empty_path (name ∷ rest) then ok (some n) else next

  -- One line for each kid; a kid that is not in the store is a nil dereference.
  unfoldable pub list_kids : Dict String → List String → Result (List Line)
  unfolding get_node
  list_kids sigs [] = ok []
  list_kids sigs (k ∷ ks) =
      let sig = text_or_empty (find k sigs) in
      and_then (and_then (get_node sig) deref) (λ n2.
        and_then (list_kids sigs ks)
          (λ rest. ok (record { sig = sig; name = k; slash = is_dir n2.attrs.mode } ∷ rest)))

  unfoldable pub block_lens : List String → List ℕ
  unfolding get_block
  block_lens [] = []
  block_lens (b ∷ bs) = length (get_block b) ∷ block_lens bs

  module _ (sort : List String → List String) where
    unfoldable pub show_kids : DNode → (names : List String) → Result Shown
    unfolding list_kids block_lens
    show_kids n [] = ok (node_with_lens n (block_lens n.data_blocks))
    show_kids n (k ∷ ks) = and_then (list_kids n.child_sigs (sort (k ∷ ks))) (λ ls. ok (listing ls))

    unfoldable pub show_found : Option DNode → Result Shown
    unfolding show_kids
    show_found none = ok nothing
    show_found (some n) = show_kids n (keys n.child_sigs)

    -- The branch of main for a path.
    unfoldable pub show_path : List String → Result Shown
    unfolding get_head get_node get_path_node show_found trim_left trim_right
    show_path path = from_head get_head
      where
        from_head : Option PbHead → Result Shown
        from_head none = ok head_not_found
        from_head (some h) =
            and_then (get_node h.root)
              (λ n. and_then (get_path_node n (trim_left (trim_right path))) show_found)

  abbrev pub head_shown : Option PbHead → Shown
  head_shown none = nothing
  head_shown (some h) = head h

  -- The branch for "head".
  unfoldable pub show_head : Shown
  unfolding get_head
  show_head = head_shown get_head

  abbrev pub raw_shown : Option Bytes → Shown
  raw_shown none = nothing
  raw_shown (some b) = bytes b

  abbrev pub key_shown : Option Bytes → Option DNode → Shown
  key_shown raw none = raw_shown raw
  key_shown raw (some n) = node n

  -- The last branch: a node where the key has one, or else its bytes.
  unfoldable pub show_key : String → Result Shown
  unfolding get_node
  show_key key = and_then (get_node key) (λ n. ok (key_shown (get key) n))
