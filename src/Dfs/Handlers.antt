-- ===== src/Dfs/Handlers.antt =====
-- The handlers of DNode in sylan/p2/dfs/fs.go. A request is its fields; printing is left out.
pub mod Kids
pub mod Create
pub mod Finish
pub mod Setattr
pub mod Remove
pub mod Rename
pub mod Flush
mod Examples
use cmsc818e.Prelude.{
  ℕ, String, List, [], ◌∷◌, ◌++◌, Option, none, some, Bool, true, false, not, ◌&&◌, if◌then◌else◌,
  length, Result, ok, deref,
}
use cmsc818e.Prelude.Dict.{Dict, find}
use cmsc818e.Dfs.Chunks.{Bytes, flush_blocks}
use cmsc818e.Dfs.Content.{write_data}
use cmsc818e.Dfs.State.{
  Ptr, Attr, Node, Fs, Cmd, Reply, done, eperm, enoent, eexist, is_dir, or_dir, pure, ◌>>=◌, ◌>>◌,
  get, lift, node_at, set_node, now, lock, unlock,
}
use cmsc818e.Dfs.Wire.{Env}
use cmsc818e.Dfs.Load.{load_all_data, ensure_loaded, update}
use cmsc818e.Dfs.Ops.{
  Dirent, fuse_type, init_node, kid_of, set_kid, delete_kid, bytes_or_empty, appended, Changes,
  change_attrs, truncate,
}

-- What each handler that changes a directory or a file starts with: fuse.EPERM where readOnly is set.
abbrev pub guard_write : {S A : Type 0} → (read_only : Bool) → Cmd S (Reply A) → Cmd S (Reply A)
guard_write true m = pure eperm
guard_write false m = m

abbrev pub reply_of : {A : Type 0} → Option A → Reply A
reply_of none = enoent
reply_of (some a) = done a

abbrev pub dict_or_empty : Option (Dict Ptr) → Dict Ptr
dict_or_empty none = []
dict_or_empty (some kids) = kids

-- os.ModeSymlink|0777
abbrev pub symlink_mode : ℕ
symlink_mode = 134218239

module _ {S : Type 0} (env : Env S) where
  unfoldable pub attr : Ptr → Cmd S Attr
  attr p = do n ← node_at p; pure n.attrs

  unfoldable pub lookup : Ptr → String → Cmd S (Reply Ptr)
  lookup p name = do ensure_loaded env p; n ← node_at p; pure (reply_of (kid_of n.kids name))

  unfoldable pub dirents : Dict Ptr → Cmd S (List Dirent)
  dirents [] = pure []
  dirents ((name, q) ∷ kids) = do
    n ← node_at q
    rest ← dirents kids
    pure (record { type = fuse_type n; name = n.name; inode = n.attrs.inode } ∷ rest)

  unfoldable pub read_dir_all : Ptr → Cmd S (List Dirent)
  read_dir_all p = do ensure_loaded env p; n ← node_at p; dirents (dict_or_empty n.kids)

  unfoldable pub getattr : Ptr → Cmd S Attr
  unfolding attr
  getattr p = do ensure_loaded env p; attr p

  unfoldable pub setattr : Ptr → Changes → Cmd S Attr
  setattr p c = do
    lock
    ensure_loaded env p
    n ← node_at p
    set_node p (record n { attrs = change_attrs c n.attrs; content = truncate c.size n.content })
    update env (some p)
    unlock
    n' ← node_at p
    pure n'.attrs

  -- What Mkdir and Create do with a node that was made for the name.
  unfoldable pub add_new : Ptr → String → (new : Ptr) → (taken : Option Ptr) → Cmd S (Reply Ptr)
  add_new p name new (some q) = pure eexist
  add_new p name new none = do
    lock
    set_kid p name new
    n ← node_at new
    set_node new (record n { parent = some p })
    update env (some new)
    unlock
    pure (done new)

  -- The body of Create, and of Mkdir with its mode.
  unfoldable pub create_node : Ptr → String → ℕ → Cmd S (Reply Ptr)
  unfolding add_new
  create_node p name mode = do
    new ← init_node name mode
    n ← node_at p
    add_new p name new (kid_of n.kids name)

  unfoldable pub mkdir : Ptr → String → ℕ → Cmd S (Reply Ptr)
  mkdir p name mode = do s ← get; guard_write s.read_only (create_node p name (or_dir mode))

  unfoldable pub create : Ptr → String → ℕ → Cmd S (Reply Ptr)
  create p name mode = do s ← get; guard_write s.read_only (create_node p name mode)

  unfoldable pub read_if : Ptr → (load_from_db : Bool) → Cmd S (Unit {0})
  read_if p true = do lock; load_all_data env p; unlock
  read_if p false = pure tt

  unfoldable pub read_all : Ptr → Cmd S Bytes
  unfolding read_if
  read_all p = do
    n ← node_at p
    read_if p n.load_from_db
    n' ← node_at p
    pure (bytes_or_empty n'.content)

  unfoldable pub write_node : Ptr → (offset : ℕ) → Bytes → Cmd S (Reply ℕ)
  write_node p offset new = do
    lock
    n ← node_at p
    bytes ← lift (write_data (bytes_or_empty n.content) offset new)
    set_node p (record n {
      content = appended n.content bytes;
      attrs = record n.attrs { size = length bytes };
      dirty = true;
    })
    unlock
    pure (done (length new))

  unfoldable pub write : Ptr → (offset : ℕ) → Bytes → Cmd S (Reply ℕ)
  unfolding write_node
  write p offset new = do s ← get; guard_write s.read_only (write_node p offset new)

  unfoldable pub flush_content : Ptr → Option Bytes → Cmd S (Unit {0})
  flush_content p none = pure tt
  flush_content p (some bytes) = do
    lock
    s ← get
    (db, keys) ← lift (flush_blocks env.sha1 env.db_put (length bytes) bytes 0 s.db)
    (λ u. ok (tt, record u { db = db }))
    n ← node_at p
    set_node p (record n { data_blocks = keys; dirty = false })
    update env (some p)
    unlock

  unfoldable pub go_flush : Ptr → Cmd S (Unit {0})
  unfolding flush_content
  go_flush p = do n ← node_at p; flush_content p n.content

  -- go goFlush(n), if the node is dirty
  unfoldable pub flush : Ptr → Cmd S (Unit {0})
  flush p = do
    n ← node_at p
    (λ s. ok (tt, if n.dirty then record s { flushing = s.flushing ++ p ∷ [] } else s))

  unfoldable pub link_kind : Ptr → String → Ptr → (directory : Bool) → Cmd S (Reply Ptr)
  link_kind p name old true = do unlock; pure eperm
  link_kind p name old false = do
    t ← now
    n ← node_at old
    set_node old (record n { attrs = record n.attrs { atime = t; mtime = t } })
    set_kid p name old
    update env (some p)
    unlock
    pure (done old)

  unfoldable pub link : Ptr → String → Ptr → Cmd S (Reply Ptr)
  unfolding link_kind
  link p name old = do
    s ← get
    guard_write s.read_only (do lock; n ← node_at old; link_kind p name old (is_dir n.attrs.mode))

  unfoldable pub remove_kid : Ptr → String → (refused : Bool) → Cmd S (Reply (Unit {0}))
  remove_kid p name true = pure eperm
  remove_kid p name false = do
    lock
    ensure_loaded env p
    delete_kid p name
    update env (some p)
    unlock
    pure (done tt)

  unfoldable pub remove_found : Ptr → String → (dir : Bool) → Option Ptr → Cmd S (Reply (Unit {0}))
  unfolding remove_kid
  remove_found p name dir none = pure enoent
  remove_found p name dir (some q) = do
    kid ← node_at q
    remove_kid p name (is_dir kid.attrs.mode && not dir)

  unfoldable pub remove : Ptr → String → (dir : Bool) → Cmd S (Reply (Unit {0}))
  unfolding remove_found
  remove p name dir = do
    s ← get
    guard_write s.read_only (do n ← node_at p; remove_found p name dir (kid_of n.kids name))

  unfoldable pub symlink : Ptr → String → (target : Bytes) → Cmd S (Reply Ptr)
  symlink p name target = do
    s ← get
    guard_write s.read_only (do
      lock
      d ← init_node name symlink_mode
      set_kid p name d
      n ← node_at d
      set_node d (record n {
        content = some target;
        dirty = true;
        attrs = record n.attrs { size = length target };
      })
      unlock
      pure (done d))

  -- Readlink returns the empty string for every link.
  unfoldable pub readlink : Ptr → Cmd S String
  readlink p = pure ""

  unfoldable pub rename_found :
      Ptr → (old : String) → (dir : Ptr) → (new : String) → Option Ptr → Cmd S (Reply (Unit {0}))
  rename_found p old dir new none = pure enoent
  rename_found p old dir new (some q) = do
    lock
    set_kid dir new q
    kid ← node_at q
    set_node q (record kid { name = new })
    delete_kid p old
    d ← node_at dir
    update env (kid_of d.kids new)
    update env (some p)
    unlock
    pure (done tt)

  unfoldable pub rename :
      Ptr → (old : String) → (dir : Ptr) → (new : String) → Cmd S (Reply (Unit {0}))
  unfolding rename_found
  rename p old dir new = do
    s ← get
    guard_write s.read_only (do n ← node_at p; rename_found p old dir new (kid_of n.kids old))
