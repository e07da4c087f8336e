-- ===== src/Dfs/State.antt =====
-- The nodes of sylan/p2/dfs/fs.go in memory, the package variables, and commands over them.
-- A pointer is an index of the heap. time.Time is a number of nanoseconds since 1970.
pub mod Heap
use cmsc818e.Prelude.{
  ℕ, zero, suc, String, ◌+◌, ◌-◌, ◌/◌, ◌%◌, Bool, true, false, List, [], ◌∷◌, ◌++◌, Option, none,
  some, ◌==◌, if◌then◌else◌, Result, ok, panic, blocked, and_then, deref,
}
use cmsc818e.Prelude.Dict.{Dict}
use cmsc818e.Dfs.Chunks.{Bytes, wrap}

abbrev pub Ptr : Type 0
Ptr = ℕ

-- fuse.Attr
pub record Attr : Type 0 where
  pub valid : ℕ
  pub inode : ℕ
  pub size : ℕ
  pub blocks : ℕ
  pub atime : ℕ
  pub mtime : ℕ
  pub ctime : ℕ
  pub crtime : ℕ
  pub mode : ℕ
  pub nlink : ℕ
  pub uid : ℕ
  pub gid : ℕ
  pub rdev : ℕ
  pub flags : ℕ
  pub block_size : ℕ

-- DNode, without `expanded` and `mutex`, which no code uses. A nil map or slice is `none`.
pub record Node : Type 0 where
  pub name : String
  pub attrs : Attr
  pub version : ℕ
  pub prev_sig : String
  pub child_sigs : Dict String
  pub data_blocks : List String
  pub sig : String
  pub dirty : Bool
  pub meta_dirty : Bool
  pub load_from_db : Bool
  pub parent : Option Ptr
  pub kids : Option (Dict Ptr)
  pub content : Option Bytes

-- S is the store behind `db`. The n-th reading of the clock from here on is `clock n`.
pub record Fs (S : Type 0) : Type 0 where
  pub heap : Ptr → Option Node
  pub next_ptr : Ptr
  pub db : S
  pub root : Option Ptr
  pub next_ind : ℕ
  pub read_only : Bool
  pub uid : ℕ
  pub gid : ℕ
  pub clock : ℕ → ℕ
  -- the order in which the n-th encoding of a node from here on goes through a map
  pub orders : ℕ → ℕ
  -- flushMutex
  pub locked : Bool
  -- goroutines `goFlush(n)` that were started and have not run yet
  pub flushing : List Ptr

abbrev pub zero_attr : Attr
zero_attr = record {
  valid = 0;
  inode = 0;
  size = 0;
  blocks = 0;
  atime = 0;
  mtime = 0;
  ctime = 0;
  crtime = 0;
  mode = 0;
  nlink = 0;
  uid = 0;
  gid = 0;
  rdev = 0;
  flags = 0;
  block_size = 0;
}

-- new(DNode)
abbrev pub zero_node : Node
zero_node = record {
  name = "";
  attrs = zero_attr;
  version = 0;
  prev_sig = "";
  child_sigs = [];
  data_blocks = [];
  sig = "";
  dirty = false;
  meta_dirty = false;
  load_from_db = false;
  parent = none;
  kids = none;
  content = none;
}

-- os.FileMode: the bits os.ModeDir and os.ModeSymlink, and os.ModeDir|m.
abbrev pub is_dir : ℕ → Bool
is_dir m = m / 2147483648 % 2 == 1

abbrev pub is_symlink : ℕ → Bool
is_symlink m = m / 134217728 % 2 == 1

abbrev pub or_dir : ℕ → ℕ
or_dir m = if is_dir m then m else m + 2147483648

abbrev pub Cmd : Type 0 → Type 0 → Type 0
Cmd S A = Fs S → Result (A × Fs S)

abbrev pub pure : {S A : Type 0} → A → Cmd S A
pure a s = ok (a, s)

infixl 5 ◌>>=◌ ◌>>◌
abbrev pub ◌>>=◌ : {S A B : Type 0} → Cmd S A → (A → Cmd S B) → Cmd S B
◌>>=◌ m f s = and_then (m s) (λ (a, t). f a t)

abbrev pub ◌>>◌ : {S B : Type 0} → Cmd S (Unit {0}) → Cmd S B → Cmd S B
m >> k = m >>= λ _. k

abbrev pub get : {S : Type 0} → Cmd S (Fs S)
get s = ok (s, s)

abbrev pub lift : {S A : Type 0} → Result A → Cmd S A
lift m s = and_then m (λ a. ok (a, s))

-- A write of one cell.
abbrev pub set_cell : (Ptr → Option Node) → Ptr → Node → Ptr → Option Node
set_cell heap p n q = if p == q then some n else heap q

-- *p, where nil or dangling pointers panic
abbrev pub node_at : {S : Type 0} → Ptr → Cmd S Node
node_at p s = lift (deref (s.heap p)) s

-- *p = n
abbrev pub set_node : {S : Type 0} → Ptr → Node → Cmd S (Unit {0})
set_node p n s = ok (tt, record s { heap = set_cell s.heap p n })

-- &n, at an address that was not in use
abbrev pub new_node : {S : Type 0} → Node → Cmd S Ptr
new_node n s =
    ok (s.next_ptr, record s { heap = set_cell s.heap s.next_ptr n; next_ptr = s.next_ptr + 1 })

-- time.Now()
abbrev pub now : {S : Type 0} → Cmd S ℕ
now s = ok (s.clock 0, record s { clock = λ i. s.clock (i + 1) })

-- flushMutex.Lock() waits while the lock is held; Unlock() without it is a fatal error.
abbrev pub lock : {S : Type 0} → Cmd S (Unit {0})
lock s = if s.locked then blocked else ok (tt, record s { locked = true })

abbrev pub unlock : {S : Type 0} → Cmd S (Unit {0})
unlock s = if s.locked then ok (tt, record s { locked = false }) else panic

-- What a handler returns to fuse: a value, or an error number.
pub data Reply (A : Type 0) : Type 0 where
  done : A → Reply A
  eperm enoent eexist : Reply A
