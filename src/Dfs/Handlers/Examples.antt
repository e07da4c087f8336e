-- ===== src/Dfs/Handlers/Examples.antt =====
-- A root directory (0) with a file "a" (1) and a directory "d" (2), with a store that is a function.
use cmsc818e.Prelude.{
  ℕ, zero, suc, ◌+◌, ◌≤◌, String, ◌≡◌, ◌≢◌, refl, sym, ap, ◌∙◌, arith, true, false, [], ◌∷◌, Option,
  none, some, if◌then◌else◌, str_eq, ok,
}
use cmsc818e.Prelude.Dict.{Dict, find}
use cmsc818e.Dfs.Chunks.{Bytes}
use cmsc818e.Dfs.State.{Ptr, Node, Fs, Attr, zero_node, zero_attr, enoent, done}
use cmsc818e.Dfs.Wire.{Env, PbNode, export_node, put_node, get_node}
use cmsc818e.Dfs.Wire.Roundtrip.{stored, get_node-put_node}
use cmsc818e.Dfs.Load.{update}
use cmsc818e.Dfs.Load.Marks.{Heap, loaded_at, IsRooted, MarkedCell}
use cmsc818e.Dfs.Load.Update.{Updated, update-Updated}
use cmsc818e.Dfs.Load.Grow.{IsHeap}
use cmsc818e.Dfs.Ops.{Changes}
use cmsc818e.Dfs.Handlers.{create, go_flush, remove, remove_found, rename, setattr}
use cmsc818e.Dfs.Handlers.Kids.{Outcome}
use cmsc818e.Dfs.Handlers.Create.{create-Outcome}
use cmsc818e.Dfs.Handlers.Setattr.{SetNode, setattr_lem}
use cmsc818e.Dfs.Handlers.Flush.{FlushedFile, go_flush-FlushedFile}
use cmsc818e.Dfs.Handlers.Remove.{RemoveReply, remove_lem}
use cmsc818e.Dfs.Handlers.Rename.Outcome.{Renamed, rename-Renamed}

abbrev Store : Type 0
Store = String → Option Bytes

-- The one message that this coding can hold.
abbrev only : PbNode
only = export_node zero_node

abbrev env : Env Store
env = record {
  db_put = λ k v db j. if str_eq k j then some v else db j;
  db_get = λ db k. db k;
  sha1 = λ bytes. "sig";
  marshal = λ order m. some (1 ∷ []);
  unmarshal = λ bytes. some only;
  marshal_head = λ h. none;
  unmarshal_head = λ bytes. none;
}

abbrev dir_attr : Attr
dir_attr = record zero_attr { mode = 2147484141 }

abbrev file_attr : Attr
file_attr = record zero_attr { inode = 1; mode = 420; size = 2 }

abbrev root_kids : Dict Ptr
root_kids = ("a", 1) ∷ ("d", 2) ∷ []

abbrev root_node : Node
root_node = record zero_node { name = "ROOT"; attrs = dir_attr; kids = some root_kids }

abbrev file_node : Node
file_node = record zero_node {
  name = "a";
  attrs = file_attr;
  parent = some 0;
  content = some (7 ∷ 8 ∷ []);
}

abbrev dir_node : Node
dir_node = record zero_node { name = "d"; attrs = dir_attr; parent = some 0; kids = some [] }

abbrev small_heap : Heap
small_heap zero = some root_node
small_heap (suc zero) = some file_node
small_heap (suc (suc zero)) = some dir_node
small_heap (suc (suc (suc p))) = none

abbrev running : Fs Store
running = record {
  heap = small_heap;
  next_ptr = 3;
  db = λ k. none;
  root = some 0;
  next_ind = 3;
  read_only = false;
  uid = 0;
  gid = 0;
  clock = λ i. 1000 + i;
  orders = λ i. i;
  locked = false;
  flushing = [];
}

running-IsHeap : IsHeap running
running-IsHeap = record { rooted = rooted; fresh = fresh }
  where
    rooted : IsRooted small_heap
    rooted zero q e = cc
    rooted (suc zero) q e =
        let is : ◌≡◌ {A = ℕ} 0 q = cc in
        (omega (arith, is), ap (λ x. loaded_at small_heap x) (sym is))
    rooted (suc (suc zero)) q e =
        let is : ◌≡◌ {A = ℕ} 0 q = cc in
        (omega (arith, is), ap (λ x. loaded_at small_heap x) (sym is))
    rooted (suc (suc (suc p))) q e = cc

    fresh : (p : Ptr) → 3 ≤ p → small_heap p ≡ none
    fresh zero h = absurd (omega arith)
    fresh (suc zero) h = absurd (omega arith)
    fresh (suc (suc zero)) h = absurd (omega arith)
    fresh (suc (suc (suc p))) h = refl

update-Updated_example :
    (t : Fs Store) × (update env (some 1) running ≡ ok (tt, t)) × Updated 1 running t
update-Updated_example = update-Updated env 1 running (omega arith) refl running-IsHeap.rooted

get_node-put_node_example :
    (t u : Fs Store) × (put_node env zero_node running ≡ ok (tt, t))
    × (get_node env "" t ≡ ok (some 3, u))
    × (u.heap 3 ≡ some (stored zero_node))
get_node-put_node_example =
    get_node-put_node env (λ k j v db. refl) zero_node (1 ∷ []) running refl refl

create-Outcome_example :
    Outcome running 0 root_node root_kids "b" 420 (create env 0 "b" 420 running)
create-Outcome_example =
    create-Outcome env running 0 root_node root_kids "b" 420 refl refl refl refl running-IsHeap

-- A request to set the modification time and to cut the file to one byte.
abbrev cut_to_one : Changes
cut_to_one = record {
  mode = none;
  atime = none;
  mtime = some 5;
  uid = none;
  gid = none;
  flags = none;
  size = some 1;
}

setattr_lem_example :
    (t : Fs Store) × (n : Node) × (setattr env 1 cut_to_one running ≡ ok (n.attrs, t))
    × (t.heap 1 ≡ some n)
    × SetNode cut_to_one 1000 file_node n
    × ((q : Ptr) → 1 ≢ q → MarkedCell (running.heap q) (t.heap q))
    × (t.locked ≡ false)
    × IsHeap t
setattr_lem_example = setattr_lem env running 1 file_node cut_to_one refl refl refl running-IsHeap

a_is_there :
    (kids : Dict Ptr) (q : Ptr)
    → root_node.kids ≡ some kids
    → find "a" kids ≡ some q
    → (k : Node) × (running.heap q ≡ some k)
a_is_there kids q has h =
    let same : root_kids ≡ kids = cc in
    let found : find "a" root_kids ≡ some q = ap (find "a") same ∙ h in
    let is : ◌≡◌ {A = ℕ} 1 q = cc in (file_node, ap small_heap (sym is))

remove_lem_example : RemoveReply env running 0 root_node "a" false (remove env 0 "a" false running)
remove_lem_example =
    remove_lem env running 0 root_node "a" false refl (λ raw. cc) refl running-IsHeap a_is_there

-- A directory that is not loaded yet: Remove does not find the kid that its message has.
abbrev unloaded_dir : Node
unloaded_dir = record zero_node { child_sigs = ("a", "sig_a") ∷ []; load_from_db = true }

unloaded-enoent :
    remove env 0 "a" false (record running { heap = λ p. some unloaded_dir })
    ≡ ok (enoent, record running { heap = λ p. some unloaded_dir })
unfolding remove remove_found
unloaded-enoent = refl

rename-Renamed_example :
    (t : Fs Store) × (rename env 0 "a" 2 "b" running ≡ ok (done tt, t))
    × Renamed env running t 0 1 2 file_node dir_node root_kids [] "a" "b"
rename-Renamed_example =
    rename-Renamed env running 0 1 2 root_node file_node dir_node root_kids [] "a" "b" (record {
      at_p = refl;
      at_q = refl;
      at_r = refl;
      p_loaded = refl;
      q_loaded = refl;
      r_loaded = refl;
      p_kids = refl;
      r_kids = refl;
      p_ne_q = λ e. absurd (omega (arith, e));
      p_ne_r = λ e. absurd (omega (arith, e));
      q_ne_r = λ e. absurd (omega (arith, e));
      found = refl;
      writable = refl;
      free = refl;
      ok_heap = running-IsHeap;
    })

go_flush-FlushedFile_example :
    (t : Fs Store) × (go_flush env 1 running ≡ ok (tt, t))
    × FlushedFile env running t 1 file_node (7 ∷ 8 ∷ [])
go_flush-FlushedFile_example =
    go_flush-FlushedFile env running 1 file_node (7 ∷ 8 ∷ []) refl refl refl (omega arith) refl
      running-IsHeap
