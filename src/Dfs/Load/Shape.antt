-- ===== src/Dfs/Load/Shape.antt =====
-- Heaps with the same parents and the same loaded nodes.
use cmsc818e.Prelude.{◌≡◌, sym, ap, ◌∙◌, not, some}
use native.Mathlib.Decide.{ℕ_discrete}
use cmsc818e.Dfs.State.{Ptr, Node, set_cell}
use cmsc818e.Dfs.State.Heap.{set_cell_self, set_cell_ne}
use cmsc818e.Dfs.Load.Marks.{
  Heap, parent_in, parent_of, loaded_in, loaded_at, MarkedCell, MarkedCell-parent,
  MarkedCell-loaded, IsRooted, Above, here, up,
}

pub record SameShape (heap heap' : Heap) : Type 0 where
  pub parents : (p : Ptr) → parent_of heap' p ≡ parent_of heap p
  pub loaded : (p : Ptr) → loaded_at heap' p ≡ loaded_at heap p

pub SameShape-trans : {a b c : Heap} → SameShape a b → SameShape b c → SameShape a c
SameShape-trans x y = record {
  parents = λ p. y.parents p ∙ x.parents p;
  loaded = λ p. y.loaded p ∙ x.loaded p;
}

pub MarkedCell-SameShape :
    (heap heap' : Heap) → ((q : Ptr) → MarkedCell (heap q) (heap' q)) → SameShape heap heap'
MarkedCell-SameShape heap heap' cells = record {
  parents = λ p. MarkedCell-parent (heap p) (heap' p) (cells p);
  loaded = λ p. MarkedCell-loaded (heap p) (heap' p) (cells p);
}

-- A node changes, but not its parent nor whether it is loaded.
pub set_cell-SameShape :
    (heap : Heap) (p : Ptr) (n n' : Node)
    → heap p ≡ some n
    → n'.parent ≡ n.parent
    → n'.load_from_db ≡ n.load_from_db
    → SameShape heap (set_cell heap p n')
set_cell-SameShape heap p n n' at_p same_parent same_loaded = record {
  parents = λ q. elim (ℕ_discrete p q) [
    | yes e ↦
        ap (λ x. parent_of (set_cell heap p n') x) (sym e)
        ∙ ap parent_in (set_cell_self heap p n')
        ∙ same_parent
        ∙ sym (ap parent_in at_p)
        ∙ ap (λ x. parent_of heap x) e
    | no other ↦ ap parent_in (set_cell_ne heap p q n' other)
  ];
  loaded = λ q. elim (ℕ_discrete p q) [
    | yes e ↦
        ap (λ x. loaded_at (set_cell heap p n') x) (sym e)
        ∙ ap loaded_in (set_cell_self heap p n')
        ∙ ap not same_loaded
        ∙ sym (ap loaded_in at_p)
        ∙ ap (λ x. loaded_at heap x) e
    | no other ↦ ap loaded_in (set_cell_ne heap p q n' other)
  ];
}

pub IsRooted-SameShape : (heap heap' : Heap) → SameShape heap heap' → IsRooted heap → IsRooted heap'
IsRooted-SameShape heap heap' h rooted p q e =
    let (lt, there) = rooted p q (sym (h.parents p) ∙ e) in (lt, h.loaded q ∙ there)

pub Above-SameShape :
    (heap heap' : Heap) → SameShape heap heap' → {q p : Ptr} → Above heap q p → Above heap' q p
Above-SameShape heap heap' h (here e) = here e
Above-SameShape heap heap' h (up {p} e a) = up (h.parents p ∙ e) (Above-SameShape heap heap' h a)

pub Above-of-SameShape :
    (heap heap' : Heap) → SameShape heap heap' → {q p : Ptr} → Above heap' q p → Above heap q p
Above-of-SameShape heap heap' h (here e) = here e
Above-of-SameShape heap heap' h (up {p} e a) =
    up (sym (h.parents p) ∙ e) (Above-of-SameShape heap heap' h a)
