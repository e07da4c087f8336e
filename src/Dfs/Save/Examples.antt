-- ===== src/Dfs/Save/Examples.antt =====
-- A marked root with a saved file and a marked directory, and a node with one older version.
use mathlib.Core.Path.{subst}
use cmsc818e.Prelude.{
  ℕ, zero, suc, ◌+◌, String, ◌≡◌, refl, sym, ap, arith, true, false, [], ◌∷◌, Option, none, some,
  if◌then◌else◌, str_eq, ok,
}
use cmsc818e.Prelude.Dict.{Dict}
use cmsc818e.Dfs.Chunks.{Bytes}
use cmsc818e.Dfs.State.{Ptr, Node, Fs, zero_node, zero_attr}
use cmsc818e.Dfs.Wire.{Env, export_node, import_node, decode_node}
use cmsc818e.Dfs.Save.{traversal_save, flush_round, get_timed_version}
use cmsc818e.Dfs.Save.Progress.{CleanAt, Progress}
use cmsc818e.Dfs.Save.Tidy.{IsTidy, IsMap, KidsBelow}
use cmsc818e.Dfs.Save.Traversal.{traversal_save-Progress}
use cmsc818e.Dfs.Save.Round.{flush_round-head}
use cmsc818e.Dfs.Save.Versions.{IsHistory, Finds, get_timed_version-latest}
use cmsc818e.Dfs.Handlers.{dict_or_empty}

abbrev Store : Type 0
Store = String → Option Bytes

-- One message stands for all.
abbrev env : Env Store
env = record {
  db_put = λ k v db j. if str_eq k j then some v else db j;
  db_get = λ db k. db k;
  sha1 = λ bytes. "sig";
  marshal = λ order m. some (order ∷ []);
  unmarshal = λ bytes. some (export_node zero_node);
  marshal_head = λ h. some (2 ∷ []);
  unmarshal_head = λ bytes. none;
}

abbrev root_kids : Dict Ptr
root_kids = ("a", 1) ∷ ("d", 2) ∷ []

abbrev root_node : Node
root_node = record zero_node { name = "ROOT"; kids = some root_kids; meta_dirty = true }

abbrev file_node : Node
file_node = record zero_node { name = "a"; sig = "sig"; parent = some 0 }

abbrev dir_node : Node
dir_node = record zero_node { name = "d"; parent = some 0; kids = some []; meta_dirty = true }

abbrev heap_of : Ptr → Option Node
heap_of zero = some root_node
heap_of (suc zero) = some file_node
heap_of (suc (suc zero)) = some dir_node
heap_of (suc (suc (suc p))) = none

abbrev running : Fs Store
running = record {
  heap = heap_of;
  next_ptr = 3;
  db = λ k. none;
  root = some 0;
  next_ind = 3;
  read_only = false;
  uid = 0;
  gid = 0;
  clock = λ i. 1000 + i;
  orders = λ i. i;
  locked = false;
  flushing = [];
}

abbrev height : Ptr → ℕ
height zero = 1
height (suc p) = 0

running-IsTidy : IsTidy height running
running-IsTidy = record { loaded = loaded; names = names; kids = kids }
  where
    loaded :
        (p : Ptr) (n : Node) → heap_of p ≡ some n → n.meta_dirty ≡ true → n.load_from_db ≡ false
    loaded zero n e dirty = let one : root_node ≡ n = cc in ap (λ x. x.load_from_db) (sym one)
    loaded (suc zero) n e dirty = let one : file_node ≡ n = cc in ap (λ x. x.load_from_db) (sym one)
    loaded (suc (suc zero)) n e dirty =
        let one : dir_node ≡ n = cc in ap (λ x. x.load_from_db) (sym one)
    loaded (suc (suc (suc p))) n e dirty = cc

    names : (p : Ptr) (n : Node) → heap_of p ≡ some n → IsMap (dict_or_empty n.kids)
    names zero n e =
        let one : root_node ≡ n = cc in
        subst (λ x. IsMap (dict_or_empty x.kids)) one (refl, (refl, tt))
    names (suc zero) n e =
        let one : file_node ≡ n = cc in subst (λ x. IsMap (dict_or_empty x.kids)) one tt
    names (suc (suc zero)) n e =
        let one : dir_node ≡ n = cc in subst (λ x. IsMap (dict_or_empty x.kids)) one tt
    names (suc (suc (suc p))) n e = cc

    kids :
        (p : Ptr) (n : Node)
        → heap_of p ≡ some n
        → KidsBelow running height (height p) (dict_or_empty n.kids)
    kids zero n e =
        let one : root_node ≡ n = cc in
        subst (λ x. KidsBelow running height 1 (dict_or_empty x.kids)) one
          (((file_node, refl), omega arith), (((dir_node, refl), omega arith), tt))
    kids (suc zero) n e =
        let one : file_node ≡ n = cc in
        subst (λ x. KidsBelow running height 0 (dict_or_empty x.kids)) one tt
    kids (suc (suc zero)) n e =
        let one : dir_node ≡ n = cc in
        subst (λ x. KidsBelow running height 0 (dict_or_empty x.kids)) one tt
    kids (suc (suc (suc p))) n e = cc

traversal_save-Progress_example :
    (t : Fs Store) × (traversal_save env 2 0 running ≡ ok (tt, t))
    × Progress env height 2 running t
    × CleanAt t 0
traversal_save-Progress_example =
    traversal_save-Progress env (λ k j v db. refl) (λ order m. (order ∷ [], refl)) height 2 0
      running root_node running-IsTidy refl (omega arith)

flush_round-head_example :
    (t u : Fs Store) × (c : Node) × (b : Bytes) × (flush_round env 2 running ≡ ok (tt, u))
    × Progress env height 2 (record running { locked = true }) t
    × (u ≡ record t { db = env.db_put "head" b t.db; locked = false })
    × (u.heap 0 ≡ some c)
    × (c.meta_dirty ≡ false)
    × (env.marshal_head (record { root = c.sig; next_ind = 3 }) ≡ some b)
    × (u.db "head" ≡ some b)
flush_round-head_example =
    flush_round-head env (λ k j v db. refl) (λ order m. (order ∷ [], refl)) (λ h. (2 ∷ [], refl))
      height 2 0 root_node running running-IsTidy refl refl refl (omega arith)

-- A node that was changed at 100, and its older version "v1".
abbrev new_version_node : Node
new_version_node = record zero_node { attrs = record zero_attr { mtime = 100 }; prev_sig = "v1" }

abbrev old_version_node : Node
old_version_node = record zero_node { sig = "v1"; load_from_db = true }

abbrev versions : Fs Store
versions = record running {
  heap = λ p. some new_version_node;
  db = λ k. if str_eq k "v1" then some (1 ∷ []) else none;
}

versions-IsHistory : IsHistory env versions.db new_version_node (old_version_node ∷ [])
unfolding decode_node import_node export_node
versions-IsHistory = (refl, refl)

get_timed_version-latest_example :
    Finds env versions
      (new_version_node ∷ old_version_node ∷ [])
      50
      (get_timed_version env 2 50 0 versions)
get_timed_version-latest_example =
    get_timed_version-latest env 2 50 0 versions new_version_node (old_version_node ∷ []) refl
      versions-IsHistory (omega arith)
