-- ===== src/Dfs/Handlers/Setattr.antt =====
-- What Setattr of sylan/p2/dfs/fs.go does.
use mathlib.Core.List.{append-nil}
use cmsc818e.Prelude.{
  ℕ, ◌≤◌, ◌<◌, ◌≡◌, ◌≢◌, ◌⊎◌, inl, inr, refl, sym, ap, ◌∙◌, true, false, Bool-cases, [], ◌++◌,
  Option, some, none, ok, arith, ltb, length, take, drop, length-take, take-append-drop,
  if◌then◌else◌,
}
use cmsc818e.Dfs.Chunks.{Bytes}
use mathlib.Core.Path.{subst}
use cmsc818e.Dfs.State.{
  Ptr, Attr, Node, Fs, Cmd, ◌>>=◌, ◌>>◌, pure, lock, unlock, node_at, set_node, set_cell,
}
use cmsc818e.Dfs.State.Heap.{bind_of, lock_of, node_at_of, set_cell_self, set_cell_ne}
use cmsc818e.Dfs.Wire.{Env}
use cmsc818e.Dfs.Load.{ensure_loaded, update}
use cmsc818e.Dfs.Load.Marks.{marked, MarkedCell}
use cmsc818e.Dfs.Load.Update.{ensure_loaded_lem}
use cmsc818e.Dfs.Load.Grow.{IsHeap}
use cmsc818e.Dfs.Load.Shape.{set_cell-SameShape}
use cmsc818e.Dfs.Ops.{Changes, get_or, change_attrs, truncate}
use cmsc818e.Dfs.Handlers.{setattr}
use cmsc818e.Dfs.Handlers.Finish.{
  update_of, unlock_after, IsHeap-SameShape, IsHeap-Updated, IsHeap-unlocked,
}

-- The node with the changes of a request, before update marks it.
abbrev pub changed : Node → Changes → Node
changed n c = record n { attrs = change_attrs c n.attrs; content = truncate c.size n.content }

-- An attribute of a request: the new value is that of the request if it has one, or else the old one.
abbrev pub IsSetBy : (asked : Option ℕ) → (old new : ℕ) → Type 0
IsSetBy asked old new = ((asked ≡ none) × (new ≡ old)) ⊎ ((v : ℕ) × (asked ≡ some v) × (new ≡ v))

-- The attributes b after a request at a time, from the attributes a.
pub record IsSetAt (c : Changes) (time : ℕ) (a b : Attr) : Type 0 where
  pub mode : IsSetBy c.mode a.mode b.mode
  pub atime : IsSetBy c.atime a.atime b.atime
  pub uid : IsSetBy c.uid a.uid b.uid
  pub gid : IsSetBy c.gid a.gid b.gid
  pub flags : IsSetBy c.flags a.flags b.flags
  pub size : IsSetBy c.size a.size b.size
  pub mtime : b.mtime ≡ time
  pub times : (b.ctime ≡ a.ctime) × (b.crtime ≡ a.crtime)
  pub ids : (b.inode ≡ a.inode) × (b.nlink ≡ a.nlink) × (b.rdev ≡ a.rdev)
  pub sizes : (b.valid ≡ a.valid) × (b.blocks ≡ a.blocks) × (b.block_size ≡ a.block_size)

-- Bytes that were cut to a length: a start of the old ones, and all of them unless they were longer.
pub record IsCutTo (size : ℕ) (old new : Bytes) : Type 0 where
  pub rest : Bytes
  pub start : old ≡ new ++ rest
  pub short : length new ≤ size
  pub whole : length old ≤ size → new ≡ old
  pub filled : size ≤ length old → length new ≡ size

abbrev pub IsCut : Option ℕ → (old new : Option Bytes) → Type 0
IsCut asked old new =
    ((asked ≡ none) × (new ≡ old))
    ⊎ ((old ≡ none) × (new ≡ none))
    ⊎ ((v : ℕ) × (bytes bytes' : Bytes) × (asked ≡ some v)
        × (old ≡ some bytes)
        × (new ≡ some bytes')
        × IsCutTo v bytes bytes')

get_or-IsSetBy : (asked : Option ℕ) (old : ℕ) → IsSetBy asked old (get_or asked old)
get_or-IsSetBy none old = inl (refl, refl)
get_or-IsSetBy (some v) old = inr (v, refl, refl)

change_attrs-IsSetAt :
    (c : Changes) (time : ℕ) (a : Attr)
    → IsSetAt c time a (record (change_attrs c a) { mtime = time })
unfolding change_attrs
change_attrs-IsSetAt c time a = record {
  mode = get_or-IsSetBy c.mode a.mode;
  atime = get_or-IsSetBy c.atime a.atime;
  uid = get_or-IsSetBy c.uid a.uid;
  gid = get_or-IsSetBy c.gid a.gid;
  flags = get_or-IsSetBy c.flags a.flags;
  size = get_or-IsSetBy c.size a.size;
  mtime = refl;
  times = (refl, refl);
  ids = (refl, refl, refl);
  sizes = (refl, refl, refl);
}

cut-IsCutTo :
    (size : ℕ) (bytes : Bytes)
    → IsCutTo size bytes (if ltb size (length bytes) then take size bytes else bytes)
cut-IsCutTo size bytes = elim (Bool-cases (ltb size (length bytes))) [
  | inl longer ↦
      let len = length-take size bytes in
      let lt : size < length bytes = ground arith in
      rw longer (record {
        rest = drop size bytes;
        start = sym (take-append-drop size bytes);
        short = omega (arith, len);
        whole = λ le. absurd (omega arith);
        filled = λ le. omega (arith, len);
      })
  | inr fits ↦
      let le : length bytes ≤ size = ground arith in
      rw fits (record {
        rest = [];
        start = sym (append-nil bytes);
        short = le;
        whole = λ _. refl;
        filled = λ ge. omega arith;
      })
]

truncate-IsCut : (asked : Option ℕ) (old : Option Bytes) → IsCut asked old (truncate asked old)
unfolding truncate
truncate-IsCut none old = inl (refl, refl)
truncate-IsCut (some size) none = inr (inl (refl, refl))
truncate-IsCut (some size) (some bytes) =
    inr (inr (size, bytes, _, refl, refl, refl, cut-IsCutTo size bytes))

-- A cell that is written to was not free.
pub set_cell-none :
    (heap : Ptr → Option Node) (p q : Ptr) (n n' : Node)
    → heap p ≡ some n
    → heap q ≡ none
    → set_cell heap p n' q ≡ none
set_cell-none heap p q n n' at_p free =
    set_cell_ne heap p q n' (λ e. off (sym at_p ∙ ap heap e ∙ free)) ∙ free
  where
    off : ◌≡◌ {A = Option Node} (some n) none → ⊥
    off e = cc

module _ {S : Type 0} (env : Env S) (s : Fs S) (p : Ptr) (n : Node) (c : Changes)
    (at_p : s.heap p ≡ some n) (is_loaded : n.load_from_db ≡ false) (free : s.locked ≡ false)
    (ok_heap : IsHeap s) where
  abbrev locked : Fs S
  locked = record s { locked = true }

  abbrev edited : Fs S
  edited = record locked { heap = set_cell s.heap p (changed n c) }

  edited-IsHeap : IsHeap edited
  edited-IsHeap =
      IsHeap-SameShape s edited refl (set_cell-SameShape s.heap p n (changed n c) at_p refl refl)
        (λ q e. set_cell-none s.heap p q n (changed n c) at_p e) ok_heap

  abbrev last : Cmd S Attr
  last = node_at p >>= λ n'. pure n'.attrs

  abbrev tail : Cmd S Attr
  tail = update env (some p) >> (unlock >> last)

  abbrev edit : Cmd S Attr
  edit = node_at p >>= λ k. (set_node p (changed k c) >> tail)

  setattr-changed :
      (t : Fs S) × (setattr env p c s
        ≡ ok (record (change_attrs c n.attrs) { mtime = s.clock 0 }, t))
      × (t.heap p ≡ some (marked (changed n c) (s.clock 0) true))
      × ((q : Ptr) → p ≢ q → MarkedCell (s.heap q) (t.heap q))
      × (t.locked ≡ false)
      × IsHeap t
  unfolding setattr
  setattr-changed =
      let here = set_cell_self s.heap p (changed n c) in
      let (t, ran, u) = update_of env p edited here is_loaded edited-IsHeap in
      let own = u.own (changed n c) here in
      (
        record t { locked = false },
        bind_of lock (λ _. (ensure_loaded env p >> edit)) s (lock_of s free)
            ∙ bind_of (ensure_loaded env p) (λ _. edit) locked
                (ensure_loaded_lem env p locked at_p is_loaded)
            ∙ bind_of (node_at p) (λ k. (set_node p (changed k c) >> tail)) locked
                (node_at_of p locked at_p)
            ∙ unlock_after env p last edited t refl ran u
            ∙ bind_of (node_at p) (λ k. pure k.attrs) (record t { locked = false })
                (node_at_of p (record t { locked = false }) own),
        own,
        λ q other.
            subst (λ o. MarkedCell o (t.heap q)) (set_cell_ne s.heap p q (changed n c) other)
              (u.cells q),
        refl,
        IsHeap-unlocked t (IsHeap-Updated p edited t u edited-IsHeap),
      )

-- What Setattr makes of a node: its attributes and content, and a mark; all else stays.
pub record SetNode (c : Changes) (time : ℕ) (n n' : Node) : Type 0 where
  pub attrs : IsSetAt c time n.attrs n'.attrs
  pub content : IsCut c.size n.content n'.content
  pub marks : n'.meta_dirty ≡ true
  pub rest : n' ≡ record n { attrs = n'.attrs; content = n'.content; meta_dirty = true }

-- On a loaded node, with the lock free, Setattr returns, also where the file system is read-only. It
-- answers the attributes that the node then has: mode, access time, user, group, flags and size are
-- those of the request, and as before where the request has none; the modification time is always the
-- time of the clock, whatever the request says; the others are as before. Content that is longer than a
-- size of the request is cut to it, and a larger size leaves it as it is. The node will be saved, no
-- other node changes but for its marks, and the lock is free again.
pub setattr_lem :
    {S : Type 0} (env : Env S) (s : Fs S) (p : Ptr) (n : Node) (c : Changes)
    → s.heap p ≡ some n
    → n.load_from_db ≡ false
    → s.locked ≡ false
    → IsHeap s
    → (t : Fs S) × (n' : Node) × (setattr env p c s ≡ ok (n'.attrs, t))
      × (t.heap p ≡ some n')
      × SetNode c (s.clock 0) n n'
      × ((q : Ptr) → p ≢ q → MarkedCell (s.heap q) (t.heap q))
      × (t.locked ≡ false)
      × IsHeap t
setattr_lem env s p n c at_p is_loaded free ok_heap =
    let (t, ran, at, others, unlocked, fine) =
      setattr-changed env s p n c at_p is_loaded free ok_heap in
    let set : SetNode c (s.clock 0) n (marked (changed n c) (s.clock 0) true) = record {
      attrs = change_attrs-IsSetAt c (s.clock 0) n.attrs;
      content = truncate-IsCut c.size n.content;
      marks = refl;
      rest = refl;
    } in
    (t, marked (changed n c) (s.clock 0) true, ran, at, set, others, unlocked, fine)
