-- ===== src/RemoteFs/Examples.antt =====
-- A file system over a chunk server that does not answer.
use cmsc818e.Prelude.{
  zero, suc, ◌≤◌, arith, refl, String, ◌≡◌, ◌≢◌, ◌+◌, Option, none, some, true, false, [], ◌∷◌, ok,
  str_eq, if◌then◌else◌,
}
use cmsc818e.Dfs.Chunks.{Bytes}
use cmsc818e.Dfs.State.{Ptr, Node, Fs, zero_node}
use cmsc818e.Dfs.Chunks.{load_blocks}
use cmsc818e.Dfs.Load.Marks.{Heap, IsRooted}
use cmsc818e.Dfs.Load.Grow.{IsHeap}
use cmsc818e.Dfs.Wire.{Env, export_node}
use cmsc818e.ChunkServer.{answered, no_call}
use cmsc818e.RemoteFs.{Remote, get_data, go_flush, init_fs}
use cmsc818e.RemoteFs.LostFlush.{go_flush-lost}
use cmsc818e.RemoteFs.Lost.{empty_root, init_fs-lost}

abbrev Store : Type 0
Store = String → Option Bytes

abbrev libs : Env Store
libs = record {
  db_put = λ k v db j. if str_eq k j then some v else db j;
  db_get = λ db k. db k;
  sha1 = λ bytes. "sig";
  marshal = λ order m. some (1 ∷ []);
  unmarshal = λ bytes. some (export_node zero_node);
  marshal_head = λ h. some (2 ∷ []);
  unmarshal_head = λ bytes. some (record { root = "sig"; next_ind = 9 });
}

-- A server that holds a head, and the calls of which are lost.
abbrev silent : Remote Store
silent = record {
  db_put = λ s key value. some (libs.db_put key value s);
  db_get = λ s key. s key;
  db_keys = λ s. [];
  put_way = λ s key value. no_call;
  get_way = λ s key. no_call;
}

abbrev starting : Fs Store
starting = record {
  heap = λ p. none;
  next_ptr = 0;
  db = λ k. if str_eq k "head" then some (2 ∷ []) else none;
  root = none;
  next_ind = 0;
  read_only = false;
  uid = 0;
  gid = 0;
  clock = λ i. 1000 + i;
  orders = λ i. i;
  locked = false;
  flushing = [];
}

silent-lost : silent.get_way starting.db "head" ≢ answered
silent-lost h = cc

init_fs-lost_example :
    (u : Fs Store) × (init_fs silent libs 5 true none starting ≡ ok (tt, u))
    × (u.root ≡ some 0)
    × (u.heap 0 ≡ some (empty_root starting))
    × (u.db ≡ starting.db)
    × (u.read_only ≡ false)
init_fs-lost_example = init_fs-lost silent libs 5 true none starting silent-lost

-- A file of two bytes, over a chunk server that holds nothing.
abbrev file : Node
file = record zero_node { content = some (7 ∷ 8 ∷ []); dirty = true }

abbrev file_heap : Heap
file_heap zero = some file
file_heap (suc p) = none

abbrev one_file : Fs Store
one_file = record starting { heap = file_heap; next_ptr = 1; db = λ k. none }

one_file-IsHeap : IsHeap one_file
one_file-IsHeap = record { rooted = rooted; fresh = fresh }
  where
    rooted : IsRooted file_heap
    rooted zero q e = cc
    rooted (suc p) q e = cc

    fresh : (p : Ptr) → 1 ≤ p → file_heap p ≡ none
    fresh zero le = absurd (omega arith)
    fresh (suc p) le = refl

go_flush-lost_example :
    (t : Fs Store) × (n : Node) × (go_flush silent libs 0 one_file ≡ ok (tt, t))
    × (t.heap 0 ≡ some n)
    × (n.dirty ≡ false)
    × (n.content ≡ some (7 ∷ 8 ∷ []))
    × (t.db ≡ one_file.db)
    × (load_blocks (get_data silent t.db) n.data_blocks ≡ [])
go_flush-lost_example =
    go_flush-lost silent libs (λ s k v. refl) 0 file (7 ∷ 8 ∷ []) one_file (λ b. refl) refl refl
      refl (omega arith) refl one_file-IsHeap
