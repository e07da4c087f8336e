-- ===== src/Memfs.antt =====
-- The in-memory file system of sylan/p1/dfs.go. A pointer is an index of the heap, a request its fields;
-- printing is left out, and so is nodeMap, which nothing queries. What its nodes have in common with
-- those of sylan/p2/dfs/fs.go (fuse.Attr, the bits of a mode, the loops of Write) is taken from there.
pub mod Remove
pub mod Create
mod Examples
use cmsc818e.Prelude.{
  ℕ, String, ◌+◌, List, [], ◌∷◌, Option, none, some, Bool, true, false, not, ◌&&◌, ◌==◌,
  if◌then◌else◌, length, ok, deref,
}
use cmsc818e.Prelude.Dict.{Dict, put}
use cmsc818e.Prelude.Command.{Command, pure, ◌>>=◌, ◌>>◌, get, lift}
use cmsc818e.Dfs.Chunks.{Bytes, wrap}
use cmsc818e.Dfs.Content.{write_data}
use cmsc818e.Dfs.State.{
  Ptr, Attr, zero_attr, is_dir, is_symlink, or_dir, Reply, done, eperm, enoent, eexist,
}
use cmsc818e.Dfs.Ops.{
  DirentType, dt_dir, dt_link, dt_file, Dirent, init_attrs, kid_of, without_kid, bytes_or_empty,
  appended, Changes, change_attrs, truncate,
}
use cmsc818e.Dfs.Handlers.{reply_of, dict_or_empty, symlink_mode}

-- DNode
pub record Node : Type 0 where
  pub nid : ℕ
  pub name : String
  pub attrs : Attr
  pub dirty : Bool
  pub kids : Option (Dict Ptr)
  pub content : Option Bytes

-- The package variables. The n-th reading of the clock from here on is `clock n`.
pub record Mem : Type 0 where
  pub heap : Ptr → Option Node
  pub next_ptr : Ptr
  pub root : Option Ptr
  pub next_ind : ℕ
  pub uid : ℕ
  pub gid : ℕ
  pub clock : ℕ → ℕ

abbrev pub Cmd : Type 0 → Type 0
Cmd A = Command Mem A

abbrev pub set_cell : (Ptr → Option Node) → Ptr → Node → Ptr → Option Node
set_cell heap p n q = if p == q then some n else heap q

abbrev pub node_at : Ptr → Cmd Node
node_at p s = lift (deref (s.heap p)) s

abbrev pub set_node : Ptr → Node → Cmd (Unit {0})
set_node p n s = ok (tt, record s { heap = set_cell s.heap p n })

-- &n, at an address that was not in use
abbrev pub new_node : Node → Cmd Ptr
new_node n s =
    ok (s.next_ptr, record s { heap = set_cell s.heap s.next_ptr n; next_ptr = s.next_ptr + 1 })

abbrev pub now : Cmd ℕ
now s = ok (s.clock 0, record s { clock = λ i. s.clock (i + 1) })

unfoldable pub fuse_type : Node → DirentType
fuse_type n =
    if is_dir n.attrs.mode then dt_dir else if is_symlink n.attrs.mode then dt_link else dt_file

-- d := new(DNode); d.init(name, mode)
unfoldable pub init_node : String → ℕ → Cmd Ptr
unfolding init_attrs
init_node name mode = do
  t ← now
  s ← get
  (λ u. ok (tt, record u { next_ind = wrap (u.next_ind + 1) }))
  new_node (record {
    nid = s.next_ind;
    name = name;
    attrs = init_attrs s.next_ind t mode s.uid s.gid;
    dirty = false;
    kids = if is_dir mode then some [] else none;
    content = some [];
  })

-- p.kids[name] = q; an assignment to a nil map panics
unfoldable pub set_kid : Ptr → String → Ptr → Cmd (Unit {0})
set_kid p name q = do
  n ← node_at p
  kids ← lift (deref n.kids)
  set_node p (record n { kids = some (put name q kids) })

-- delete(p.kids, name)
unfoldable pub delete_kid : Ptr → String → Cmd (Unit {0})
delete_kid p name = do n ← node_at p; set_node p (record n { kids = without_kid n.kids name })

unfoldable pub attr : Ptr → Cmd Attr
attr p = do n ← node_at p; pure n.attrs

unfoldable pub lookup : Ptr → String → Cmd (Reply Ptr)
lookup p name = do n ← node_at p; pure (reply_of (kid_of n.kids name))

unfoldable pub dirents : Dict Ptr → Cmd (List Dirent)
dirents [] = pure []
dirents ((name, q) ∷ kids) = do
  n ← node_at q
  rest ← dirents kids
  pure (record { type = fuse_type n; name = n.name; inode = n.nid } ∷ rest)

unfoldable pub read_dir_all : Ptr → Cmd (List Dirent)
read_dir_all p = do n ← node_at p; dirents (dict_or_empty n.kids)

unfoldable pub setattr : Ptr → Changes → Cmd Attr
setattr p c = do
  n ← node_at p
  set_node p (record n { attrs = change_attrs c n.attrs; content = truncate c.size n.content })
  n' ← node_at p
  pure n'.attrs

unfoldable pub add_new : Ptr → String → (new : Ptr) → (taken : Option Ptr) → Cmd (Reply Ptr)
add_new p name new (some q) = pure eexist
add_new p name new none = do set_kid p name new; pure (done new)

unfoldable pub create : Ptr → String → ℕ → Cmd (Reply Ptr)
unfolding add_new
create p name mode = do
  new ← init_node name mode
  n ← node_at p
  add_new p name new (kid_of n.kids name)

unfoldable pub mkdir : Ptr → String → ℕ → Cmd (Reply Ptr)
mkdir p name mode = create p name (or_dir mode)

unfoldable pub read_all : Ptr → Cmd Bytes
read_all p = do n ← node_at p; pure (bytes_or_empty n.content)

unfoldable pub write : Ptr → (offset : ℕ) → Bytes → Cmd ℕ
write p offset new = do
  n ← node_at p
  bytes ← lift (write_data (bytes_or_empty n.content) offset new)
  set_node p (record n {
    content = appended n.content bytes;
    attrs = record n.attrs { size = length bytes };
  })
  pure (length new)

unfoldable pub link_kind : Ptr → String → Ptr → (directory : Bool) → Cmd (Reply Ptr)
link_kind p name old true = pure eperm
link_kind p name old false = do
  t ← now
  n ← node_at old
  set_node old (record n { attrs = record n.attrs { atime = t; mtime = t } })
  set_kid p name old
  pure (done old)

unfoldable pub link : Ptr → String → Ptr → Cmd (Reply Ptr)
unfolding link_kind
link p name old = do n ← node_at old; link_kind p name old (is_dir n.attrs.mode)

unfoldable pub remove_kid : Ptr → String → (refused : Bool) → Cmd (Reply (Unit {0}))
remove_kid p name true = pure eperm
remove_kid p name false = do delete_kid p name; pure (done tt)

unfoldable pub remove_found : Ptr → String → (dir : Bool) → Option Ptr → Cmd (Reply (Unit {0}))
unfolding remove_kid
remove_found p name dir none = pure enoent
remove_found p name dir (some q) = do
  kid ← node_at q
  remove_kid p name (is_dir kid.attrs.mode && not dir)

unfoldable pub remove : Ptr → String → (dir : Bool) → Cmd (Reply (Unit {0}))
unfolding remove_found
remove p name dir = do n ← node_at p; remove_found p name dir (kid_of n.kids name)

unfoldable pub symlink : Ptr → String → (target : Bytes) → Cmd (Reply Ptr)
symlink p name target = do
  d ← init_node name symlink_mode
  set_kid p name d
  n ← node_at d
  set_node d (record n {
    content = some target;
    dirty = true;
    attrs = record n.attrs { size = length target };
  })
  pure (done d)

unfoldable pub rename_found :
    Ptr → (old : String) → (dir : Ptr) → (new : String) → Option Ptr → Cmd (Reply (Unit {0}))
rename_found p old dir new none = pure enoent
rename_found p old dir new (some q) = do
  set_kid dir new q
  kid ← node_at q
  set_node q (record kid { name = new })
  delete_kid p old
  pure (done tt)

unfoldable pub rename : Ptr → (old : String) → (dir : Ptr) → (new : String) → Cmd (Reply (Unit {0}))
unfolding rename_found
rename p old dir new = do n ← node_at p; rename_found p old dir new (kid_of n.kids old)
