-- ===== src/Inspect/Examples.antt =====
-- A store with a root, a file "a" and a kid "b" that was not stored.
use cmsc818e.Prelude.{
  String, [], ◌∷◌, Option, none, some, ◌≡◌, refl, ok, panic, str_eq, if◌then◌else◌, false,
}
use cmsc818e.Dfs.Chunks.{Bytes}
use cmsc818e.Dfs.State.{Node, Fs, zero_node}
use cmsc818e.Dfs.Wire.{Env, PbNode, PbHead, export_node}
use cmsc818e.Dfs.Save.{get_path_node as fs_get_path_node}
use cmsc818e.Inspect.{
  get_path_node, show_path, node_with_lens, listing, show_key, show_head, head, bytes,
}
use cmsc818e.Inspect.Paths.{view, found, get_path_node-view}

abbrev Store : Type 0
Store = String → Option Bytes

abbrev file : Node
file = record zero_node { name = "a"; data_blocks = "block" ∷ "lost" ∷ [] }

abbrev root : Node
root = record zero_node { child_sigs = ("a", "sig_a") ∷ [] }

abbrev broken : Node
broken = record zero_node { child_sigs = ("a", "sig_a") ∷ ("b", "sig_b") ∷ [] }

-- A coding by length.
abbrev node_of : Bytes → Option PbNode
node_of [] = none
node_of (x ∷ []) = some (export_node root)
node_of (x ∷ y ∷ []) = some (export_node file)
node_of (x ∷ y ∷ z ∷ bs) = some (export_node broken)

abbrev head_of : Bytes → Option PbHead
head_of [] = none
head_of (x ∷ []) = some (record { root = "sig_root"; next_ind = 3 })
head_of (x ∷ y ∷ bs) = some (record { root = "sig_broken"; next_ind = 3 })

abbrev stored : Store
stored k =
    if str_eq k "head"
    then some (0 ∷ [])
    else if str_eq k "sig_root"
    then some (1 ∷ [])
    else if str_eq k "sig_broken"
    then some (1 ∷ 1 ∷ 1 ∷ [])
    else if str_eq k "sig_a"
    then some (2 ∷ 2 ∷ [])
    else if str_eq k "block"
    then some (7 ∷ 8 ∷ 9 ∷ [])
    else none

abbrev broken_store : Store
broken_store k = if str_eq k "head" then some (0 ∷ 0 ∷ []) else stored k

-- The path "/a/": the block that is not there has length 0.
file_shown :
    show_path stored node_of head_of (λ ks. ks) ("" ∷ "a" ∷ "" ∷ [])
    ≡ ok (node_with_lens (view file) (3 ∷ 0 ∷ []))
unfolding show_path export_node
file_shown = refl

root_shown :
    show_path stored node_of head_of (λ ks. ks) ("" ∷ "" ∷ [])
    ≡ ok (listing (record { sig = "sig_a"; name = "a"; slash = false } ∷ []))
unfolding show_path export_node
root_shown = refl

-- A kid that is not in the store: n2.Attrs of a nil n2.
missing_kid : show_path broken_store node_of head_of (λ ks. ks) ("" ∷ "" ∷ []) ≡ panic
unfolding show_path export_node
missing_kid = refl

block_shown : show_key stored (λ b. none) head_of "block" ≡ ok (bytes (7 ∷ 8 ∷ 9 ∷ []))
unfolding show_key
block_shown = refl

head_shown : show_head stored node_of head_of ≡ head (record { root = "sig_root"; next_ind = 3 })
unfolding show_head
head_shown = refl

abbrev env : Env Store
env = record {
  db_put = λ k v db j. if str_eq k j then some v else db j;
  db_get = λ db k. db k;
  sha1 = λ b. "sig";
  marshal = λ order m. none;
  unmarshal = node_of;
  marshal_head = λ h. none;
  unmarshal_head = head_of;
}

abbrev running : Fs Store
running = record {
  heap = λ p. some root;
  next_ptr = 1;
  db = stored;
  root = some 0;
  next_ind = 3;
  read_only = false;
  uid = 0;
  gid = 0;
  clock = λ i. i;
  orders = λ i. i;
  locked = false;
  flushing = [];
}

get_path_node-view_example :
    found (fs_get_path_node env (some 0) ("a" ∷ []) running)
    ≡ get_path_node stored node_of head_of (some (view root)) ("a" ∷ [])
get_path_node-view_example = get_path_node-view env 0 root running ("a" ∷ []) refl
