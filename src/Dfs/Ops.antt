-- ===== src/Dfs/Ops.antt =====
-- What the handlers of DNode in sylan/p2/dfs/fs.go are made of.
use cmsc818e.Prelude.{
  ℕ, String, ◌+◌, [], ◌∷◌, Option, none, some, if◌then◌else◌, ltb, length, take, ok, deref,
}
use cmsc818e.Prelude.Dict.{Dict, find, put, delete}
use cmsc818e.Dfs.Chunks.{Bytes, wrap}
use cmsc818e.Dfs.State.{
  Ptr, Attr, Node, Cmd, zero_node, zero_attr, is_dir, is_symlink, ◌>>=◌, ◌>>◌, get, lift, node_at,
  set_node, new_node, now,
}

pub data DirentType : Type 0 where
  dt_dir dt_link dt_file : DirentType

pub record Dirent : Type 0 where
  pub type : DirentType
  pub name : String
  pub inode : ℕ

unfoldable pub fuse_type : Node → DirentType
fuse_type n =
    if is_dir n.attrs.mode then dt_dir else if is_symlink n.attrs.mode then dt_link else dt_file

-- The attributes that a new node gets.
unfoldable pub init_attrs : (inode time mode uid gid : ℕ) → Attr
init_attrs inode time mode uid gid = record zero_attr {
  inode = inode;
  size = 0;
  atime = time;
  mtime = time;
  ctime = time;
  crtime = time;
  mode = mode;
  uid = uid;
  gid = gid;
}

-- d := new(DNode); d.init(name, mode)
unfoldable pub init_node : {S : Type 0} → String → ℕ → Cmd S Ptr
unfolding init_attrs
init_node name mode = do
  t ← now
  s ← get
  (λ u. ok (tt, record u { next_ind = wrap (u.next_ind + 1) }))
  new_node (record zero_node {
    name = name;
    attrs = init_attrs s.next_ind t mode s.uid s.gid;
    content = some [];
    kids = if is_dir mode then some [] else none;
  })

-- n.kids[name], nil where there is none or no map
abbrev pub kid_of : Option (Dict Ptr) → String → Option Ptr
kid_of none name = none
kid_of (some kids) name = find name kids

-- p.kids[name] = q; an assignment to a nil map panics
unfoldable pub set_kid : {S : Type 0} → Ptr → String → Ptr → Cmd S (Unit {0})
set_kid p name q = do
  n ← node_at p
  kids ← lift (deref n.kids)
  set_node p (record n { kids = some (put name q kids) })

-- delete(p.kids, name), which leaves a nil map nil
abbrev pub without_kid : Option (Dict Ptr) → String → Option (Dict Ptr)
without_kid none name = none
without_kid (some kids) name = some (delete name kids)

unfoldable pub delete_kid : {S : Type 0} → Ptr → String → Cmd S (Unit {0})
delete_kid p name = do n ← node_at p; set_node p (record n { kids = without_kid n.kids name })

abbrev pub bytes_or_empty : Option Bytes → Bytes
bytes_or_empty none = []
bytes_or_empty (some bytes) = bytes

-- A slice that was appended to: nil only if it was nil and got no bytes.
abbrev pub appended : Option Bytes → Bytes → Option Bytes
appended none [] = none
appended none (b ∷ bytes) = some (b ∷ bytes)
appended (some old) bytes = some bytes

-- A SetattrRequest: the fields that are marked valid.
pub record Changes : Type 0 where
  pub mode : Option ℕ
  pub atime : Option ℕ
  pub mtime : Option ℕ
  pub uid : Option ℕ
  pub gid : Option ℕ
  pub flags : Option ℕ
  pub size : Option ℕ

abbrev pub get_or : Option ℕ → ℕ → ℕ
get_or none old = old
get_or (some new) old = new

unfoldable pub change_attrs : Changes → Attr → Attr
change_attrs c a = record a {
  mode = get_or c.mode a.mode;
  atime = get_or c.atime a.atime;
  mtime = get_or c.mtime a.mtime;
  uid = get_or c.uid a.uid;
  gid = get_or c.gid a.gid;
  flags = get_or c.flags a.flags;
  size = get_or c.size a.size;
}

-- if req.Size < uint64(len(n.data)) { n.data = n.data[:req.Size] }
unfoldable pub truncate : Option ℕ → Option Bytes → Option Bytes
truncate (some size) (some bytes) =
    some (if ltb size (length bytes) then take size bytes else bytes)
truncate _ content = content
