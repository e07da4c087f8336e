-- ===== src/Dfs/Handlers/Rename.antt =====
-- What Rename of sylan/p2/dfs/fs.go does between two directories.
pub mod Outcome
use cmsc818e.Prelude.{
  ℕ, String, ◌≡◌, ◌≢◌, refl, sym, ap, ◌∙◌, Bool, true, false, Option, some, none, ok, if◌then◌else◌,
  str_eq, str_eq_iff,
}
use cmsc818e.Prelude.Dict.{Dict, find, put, delete, find-put, find-delete}
use mathlib.Core.Path.{subst}
use cmsc818e.Dfs.State.{
  Ptr, Node, Fs, Cmd, Reply, done, ◌>>=◌, ◌>>◌, pure, lock, unlock, node_at, set_node, set_cell,
}
use cmsc818e.Dfs.State.Heap.{bind_of, lock_of, node_at_of, set_cell_self, set_cell_ne}
use cmsc818e.Dfs.Wire.{Env}
use cmsc818e.Dfs.Load.{update}
use cmsc818e.Dfs.Load.Marks.{MarkedCell, MarkedCell-trans, Above, here}
use cmsc818e.Dfs.Load.Update.{Saved, Updated}
use cmsc818e.Dfs.Load.Grow.{IsHeap}
use cmsc818e.Dfs.Load.Shape.{
  SameShape, SameShape-trans, set_cell-SameShape, MarkedCell-SameShape, Above-of-SameShape,
}
use cmsc818e.Dfs.Ops.{kid_of, without_kid, set_kid, delete_kid}
use cmsc818e.Dfs.Handlers.{guard_write, reply_of, lookup, rename_found, rename}
use cmsc818e.Dfs.Handlers.Kids.{with_kid, set_kid_lem, SavedAs, SavedAs-of}
use cmsc818e.Dfs.Handlers.Finish.{
  update_of, unlock_after, IsHeap-SameShape, IsHeap-Updated, IsHeap-unlocked,
}
use cmsc818e.Dfs.Handlers.Setattr.{set_cell-none}
use cmsc818e.Dfs.Handlers.Remove.{lookup_marked}

-- A directory p with a kid q under the name `old`, and another directory r, all of them in memory.
pub record Move {S : Type 0} (s : Fs S) (p q r : Ptr) (d k e : Node) (kids rkids : Dict Ptr)
    (old : String) : Type 0 where
  pub at_p : s.heap p ≡ some d
  pub at_q : s.heap q ≡ some k
  pub at_r : s.heap r ≡ some e
  pub p_loaded : d.load_from_db ≡ false
  pub q_loaded : k.load_from_db ≡ false
  pub r_loaded : e.load_from_db ≡ false
  pub p_kids : d.kids ≡ some kids
  pub r_kids : e.kids ≡ some rkids
  pub p_ne_q : p ≢ q
  pub p_ne_r : p ≢ r
  pub q_ne_r : q ≢ r
  pub found : find old kids ≡ some q
  pub writable : s.read_only ≡ false
  pub free : s.locked ≡ false
  pub ok_heap : IsHeap s

module _ {S : Type 0} (env : Env S) (s : Fs S) (p q r : Ptr) (d k e : Node) (kids rkids : Dict Ptr)
    (old new : String) (mv : Move s p q r d k e kids rkids old) where
  abbrev pub without : Node
  without = record d { kids = some (delete old kids) }

  abbrev pub renamed : Node
  renamed = record k { name = new }

  abbrev pub locked : Fs S
  locked = record s { locked = true }

  abbrev pub heap1 : Ptr → Option Node
  heap1 = set_cell s.heap r (with_kid e rkids new q)

  abbrev pub heap2 : Ptr → Option Node
  heap2 = set_cell heap1 q renamed

  abbrev pub heap3 : Ptr → Option Node
  heap3 = set_cell heap2 p without

  abbrev pub moved : Fs S
  moved = record locked { heap = heap3 }

  q_in_heap1 : heap1 q ≡ some k
  q_in_heap1 = set_cell_ne s.heap r q (with_kid e rkids new q) (λ x. mv.q_ne_r (sym x)) ∙ mv.at_q

  p_in_heap2 : heap2 p ≡ some d
  p_in_heap2 =
      set_cell_ne heap1 q p renamed (λ x. mv.p_ne_q (sym x))
      ∙ set_cell_ne s.heap r p (with_kid e rkids new q) (λ x. mv.p_ne_r (sym x))
      ∙ mv.at_p

  pub r_in_heap3 : heap3 r ≡ some (with_kid e rkids new q)
  r_in_heap3 =
      set_cell_ne heap2 p r without mv.p_ne_r
      ∙ set_cell_ne heap1 q r renamed mv.q_ne_r
      ∙ set_cell_self s.heap r (with_kid e rkids new q)

  pub q_in_heap3 : heap3 q ≡ some renamed
  q_in_heap3 = set_cell_ne heap2 p q without mv.p_ne_q ∙ set_cell_self heap1 q renamed

  pub same_shape : SameShape s.heap heap3
  same_shape =
      SameShape-trans (set_cell-SameShape s.heap r e (with_kid e rkids new q) mv.at_r refl refl) (
        SameShape-trans (set_cell-SameShape heap1 q k renamed q_in_heap1 refl refl)
          (set_cell-SameShape heap2 p d without p_in_heap2 refl refl))

  pub moved-IsHeap : IsHeap moved
  moved-IsHeap =
      IsHeap-SameShape s moved refl same_shape
        (λ x none_at. set_cell-none heap2 p x d without p_in_heap2 (
          set_cell-none heap1 q x k renamed q_in_heap1
            (set_cell-none s.heap r x e (with_kid e rkids new q) mv.at_r none_at)))
        mv.ok_heap

  delete_kid-moved : delete_kid p old (record locked { heap = heap2 }) ≡ ok (tt, moved)
  unfolding delete_kid
  delete_kid-moved =
      bind_of (node_at p) (λ n. set_node p (record n { kids = without_kid n.kids old }))
        (record locked { heap = heap2 }) (node_at_of p (record locked { heap = heap2 }) p_in_heap2)
      ∙ ap
          (λ o. set_node p (record d { kids = without_kid o old }) (record locked { heap = heap2 }))
          mv.p_kids

  -- What happens before the two updates.
  abbrev pub last : Cmd S (Reply (Unit {0}))
  last = pure (done tt)

  abbrev pub tail : Cmd S (Reply (Unit {0}))
  tail = update env (some p) >> (unlock >> last)

  abbrev step4 : Cmd S (Reply (Unit {0}))
  step4 = node_at r >>= λ n. (update env (kid_of n.kids new) >> tail)

  abbrev step3 : Cmd S (Reply (Unit {0}))
  step3 = delete_kid p old >> step4

  abbrev step2 : Cmd S (Reply (Unit {0}))
  step2 = node_at q >>= λ n. (set_node q (record n { name = new }) >> step3)

  pub rename-moved : rename env p old r new s ≡ (update env (some q) >>= λ _. tail) moved
  unfolding rename rename_found
  rename-moved =
      ap
        (λ b. guard_write b (node_at p >>= λ n. rename_found env p old r new (kid_of n.kids old)) s)
        mv.writable
      ∙ bind_of (node_at p) (λ n. rename_found env p old r new (kid_of n.kids old)) s
          (node_at_of p s mv.at_p)
      ∙ ap (λ o. rename_found env p old r new o s) (ap (λ o. kid_of o old) mv.p_kids ∙ mv.found)
      ∙ bind_of lock (λ _. (set_kid r new q >> step2)) s (lock_of s mv.free)
      ∙ bind_of (set_kid r new q) (λ _. step2) locked (set_kid_lem r new q locked mv.at_r mv.r_kids)
      ∙ bind_of (node_at q) (λ n. (set_node q (record n { name = new }) >> step3))
          (record locked { heap = heap1 })
          (node_at_of q (record locked { heap = heap1 }) q_in_heap1)
      ∙ bind_of (delete_kid p old) (λ _. step4) (record locked { heap = heap2 }) delete_kid-moved
      ∙ bind_of (node_at r) (λ n. (update env (kid_of n.kids new) >> tail)) moved
          (node_at_of r moved r_in_heap3)
      ∙ ap (λ o. (update env o >> tail) moved) new_kid
    where
      new_kid : find new (put new q rkids) ≡ some q
      new_kid =
          find-put new new q rkids
          ∙ ap (λ b. if b then some q else find new rkids) ((str_eq_iff new new).1 refl)
