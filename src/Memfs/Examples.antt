-- ===== src/Memfs/Examples.antt =====
-- Remove in a small file system in memory.
use cmsc818e.Prelude.{
  String, [], ◌∷◌, Option, none, some, true, false, ◌≡◌, ◌⊎◌, arith, refl, ap, sym, ok, str_eq,
  if◌then◌else◌, not, ◌&&◌, ◌==◌,
}
use cmsc818e.Prelude.Dict.{Dict, find}
use cmsc818e.Dfs.State.{Ptr, zero_attr, is_dir, done, enoent, eperm, eexist}
use cmsc818e.Dfs.Handlers.{reply_of}
use cmsc818e.Memfs.{Node, Mem, lookup, remove, create}
use cmsc818e.Memfs.Create.{create-lookup}
use cmsc818e.Memfs.Remove.{removed, remove-lookup}

abbrev file_node : Node
file_node = record {
  nid = 1;
  name = "a";
  attrs = zero_attr;
  dirty = false;
  kids = none;
  content = some [];
}

abbrev root_kids : Dict Ptr
root_kids = ("a", 1) ∷ []

abbrev root_node : Node
root_node = record {
  nid = 0;
  name = "";
  attrs = zero_attr;
  dirty = false;
  kids = some root_kids;
  content = some [];
}

abbrev heap_of : Ptr → Option Node
heap_of p = if p == 0 then some root_node else if p == 1 then some file_node else none

abbrev two_nodes : Mem
two_nodes = record {
  heap = heap_of;
  next_ptr = 2;
  root = some 0;
  next_ind = 2;
  uid = 0;
  gid = 0;
  clock = λ i. i;
}

a-there : (q : Ptr) → find "a" root_kids ≡ some q → (k : Node) × (two_nodes.heap q ≡ some k)
a-there q h = let same : 1 ≡ q = cc in (file_node, ap (λ x. two_nodes.heap x) (sym same))

remove-lookup_example :
    ((find "a" root_kids ≡ none) × (remove 0 "a" false two_nodes ≡ ok (enoent, two_nodes)))
    ⊎ ((q : Ptr) × (k : Node) × (find "a" root_kids ≡ some q)
        × (two_nodes.heap q ≡ some k)
        × (((is_dir k.attrs.mode && not false ≡ true)
              × (remove 0 "a" false two_nodes ≡ ok (eperm, two_nodes)))
            ⊎ ((is_dir k.attrs.mode && not false ≡ false)
                × (remove 0 "a" false two_nodes
                    ≡ ok (done tt, removed two_nodes 0 root_node root_kids "a"))
                × ((other : String)
                    → lookup 0 other (removed two_nodes 0 root_node root_kids "a")
                      ≡ ok (
                        reply_of (if str_eq "a" other then none else find other root_kids),
                        removed two_nodes 0 root_node root_kids "a",
                      )))))
remove-lookup_example = remove-lookup two_nodes 0 root_node root_kids "a" false refl refl a-there

create-lookup_example :
    (t : Mem) × (((q : Ptr) × (find "b" root_kids ≡ some q)
        × (create 0 "b" 420 two_nodes ≡ ok (eexist, t))
        × ((other : String) → lookup 0 other t ≡ ok (reply_of (find other root_kids), t)))
      ⊎ ((find "b" root_kids ≡ none)
          × (create 0 "b" 420 two_nodes ≡ ok (done 2, t))
          × ((other : String)
              → lookup 0 other t
                ≡ ok (reply_of (if str_eq "b" other then some 2 else find other root_kids), t))))
create-lookup_example =
    create-lookup two_nodes 0 root_node root_kids "b" 420 refl refl (λ h. omega (arith, h))
