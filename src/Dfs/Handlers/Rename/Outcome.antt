-- ===== src/Dfs/Handlers/Rename/Outcome.antt =====
-- The outcome of Rename: what Lookup finds after it, and what will be saved.
use cmsc818e.Prelude.{String, ◌≡◌, refl, ap, ◌∙◌, false, some, none, ok, if◌then◌else◌, str_eq}
use cmsc818e.Prelude.Dict.{Dict, find, find-put, find-delete}
use mathlib.Core.Path.{subst}
use cmsc818e.Dfs.State.{Ptr, Node, Fs, done}
use cmsc818e.Dfs.State.Heap.{bind_of, set_cell_self}
use cmsc818e.Dfs.Wire.{Env}
use cmsc818e.Dfs.Load.{update}
use cmsc818e.Dfs.Load.Marks.{MarkedCell, MarkedCell-trans, MarkedCell-dirty, Above, here}
use cmsc818e.Dfs.Load.Update.{Saved, Updated}
use cmsc818e.Dfs.Load.Grow.{IsHeap}
use cmsc818e.Dfs.Load.Shape.{SameShape-trans, MarkedCell-SameShape, Above-of-SameShape}
use cmsc818e.Dfs.Handlers.{reply_of, lookup, rename}
use cmsc818e.Dfs.Handlers.Kids.{with_kid, SavedAs, SavedAs-of}
use cmsc818e.Dfs.Handlers.Finish.{update_of, unlock_after, IsHeap-Updated, IsHeap-unlocked}
use cmsc818e.Dfs.Handlers.Remove.{lookup_marked}
use cmsc818e.Dfs.Handlers.Rename.{
  Move, without, moved, heap2, tail, last, r_in_heap3, q_in_heap3, same_shape, moved-IsHeap,
  rename-moved,
}

pub record Renamed {S : Type 0} (env : Env S) (s t : Fs S) (p q r : Ptr) (k e : Node)
    (kids rkids : Dict Ptr) (old new : String) : Type 0 where
  pub kid : SavedAs t q (record k { name = new })
  pub old_dir : Saved t p
  pub old_listing :
      (j : String)
      → lookup env p j t ≡ ok (reply_of (if str_eq old j then none else find j kids), t)
  pub new_listing :
      (j : String)
      → lookup env r j t ≡ ok (reply_of (if str_eq new j then some q else find j rkids), t)
  pub new_dir_unmarked :
      (Above s.heap r q → ⊥) → (Above s.heap r p → ⊥) → t.heap r ≡ some (with_kid e rkids new q)
  pub unlocked : t.locked ≡ false
  pub ok_heap : IsHeap t

module _ {S : Type 0} (env : Env S) (s : Fs S) (p q r : Ptr) (d k e : Node) (kids rkids : Dict Ptr)
    (old new : String) (mv : Move s p q r d k e kids rkids old) where
  abbrev done_moves : Fs S
  done_moves = moved env s p q r d k e kids rkids old new mv

  two_updates :
      (t1 t2 : Fs S)
      → Updated q done_moves t1
      → Updated p t1 t2
      → Renamed env s (record t2 { locked = false }) p q r k e kids rkids old new
  two_updates t1 t2 u1 u2 =
      let before = done_moves.heap in
      let r_at = r_in_heap3 env s p q r d k e kids rkids old new mv in
      let q_at = q_in_heap3 env s p q r d k e kids rkids old new mv in
      let p_at =
        set_cell_self (heap2 env s p q r d k e kids rkids old new mv) p
          (without env s p q r d k e kids rkids old new mv) in
      let cells = λ (x : Ptr).
        MarkedCell-trans (before x) (t1.heap x) (t2.heap x) (u1.cells x) (u2.cells x) in
      let shape = same_shape env s p q r d k e kids rkids old new mv in
      let shape1 = SameShape-trans shape (MarkedCell-SameShape before t1.heap u1.cells) in
      let (q1, q1_at, q1_dirty) = u1.to_save q (here refl) in
      record {
        kid =
            SavedAs-of done_moves t2 q _ q_at (cells q)
              (MarkedCell-dirty (t1.heap q) (t2.heap q) (u2.cells q) q1_at q1_dirty);
        old_dir = u2.to_save p (here refl);
        old_listing = λ j.
            lookup_marked env (record t2 { locked = false }) p j _
              (subst (λ o. MarkedCell o (t2.heap p)) p_at (cells p)) mv.p_loaded refl
            ∙ ap (λ o. ok (reply_of o, record t2 { locked = false })) (find-delete old j kids);
        new_listing = λ j.
            lookup_marked env (record t2 { locked = false }) r j _
              (subst (λ o. MarkedCell o (t2.heap r)) r_at (cells r)) mv.r_loaded refl
            ∙ ap (λ o. ok (reply_of o, record t2 { locked = false })) (find-put new j q rkids);
        new_dir_unmarked = λ not_q not_p.
            u2.frame r (λ a. not_p (Above-of-SameShape s.heap t1.heap shape1 a))
            ∙ u1.frame r (λ a. not_q (Above-of-SameShape s.heap before shape a))
            ∙ r_at;
        unlocked = refl;
        ok_heap = IsHeap-unlocked t2 (
            IsHeap-Updated p t1 t2 u2 (
              IsHeap-Updated q done_moves t1 u1
                (moved-IsHeap env s p q r d k e kids rkids old new mv)));
      }

  -- A rename of a file that is there, to another directory, all of them in memory, returns: Lookup
  -- finds the file under its new name in the new directory, replacing what had this name, and no more
  -- under the old one; other names are as before. The file and the old directory will be saved. The
  -- new directory will not be, unless it lies above the file's parent or above the old directory: its
  -- marks are as they were. The lock is free again.
  pub rename-Renamed :
      (t : Fs S) × (rename env p old r new s ≡ ok (done tt, t))
      × Renamed env s t p q r k e kids rkids old new
  rename-Renamed =
      let ok1 = moved-IsHeap env s p q r d k e kids rkids old new mv in
      let q_at = q_in_heap3 env s p q r d k e kids rkids old new mv in
      let p_at =
        set_cell_self (heap2 env s p q r d k e kids rkids old new mv) p
          (without env s p q r d k e kids rkids old new mv) in
      let (t1, ran1, u1) = update_of env q done_moves q_at mv.q_loaded ok1 in
      let (n1, at1, m1) = subst (λ o. MarkedCell o (t1.heap p)) p_at (u1.cells p) in
      let (t2, ran2, u2) =
        update_of env p t1 at1 (ap (λ x. x.load_from_db) m1.same ∙ mv.p_loaded)
          (IsHeap-Updated q done_moves t1 u1 ok1) in
      (
        record t2 { locked = false },
        rename-moved env s p q r d k e kids rkids old new mv
            ∙ bind_of (update env (some q)) (λ _. tail env s p q r d k e kids rkids old new mv)
                done_moves ran1
            ∙ unlock_after env p (last env s p q r d k e kids rkids old new mv) t1 t2
                (ap (λ x. x.locked) u1.rest) ran2 u2,
        two_updates t1 t2 u1 u2,
      )
