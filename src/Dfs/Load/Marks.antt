-- ===== src/Dfs/Load/Marks.antt =====
-- The marks that update sets on nodes, and the directories above a node.
use cmsc818e.Prelude.{
  ℕ, ◌≤◌, ◌<◌, arith, ◌≡◌, ◌⊎◌, inl, inr, refl, sym, ap, ◌∙◌, true, false, not, Bool, Option, none,
  some,
}
use mathlib.Core.Path.{subst}
use native.Mathlib.Decide.{ℕ_discrete}
use cmsc818e.Dfs.State.{Ptr, Node, set_cell}
use cmsc818e.Dfs.State.Heap.{set_cell_self, set_cell_ne}

abbrev pub Heap : Type 0
Heap = Ptr → Option Node

-- The node with the two marks that update sets.
abbrev pub marked : Node → ℕ → Bool → Node
marked n t b = record n { attrs = record n.attrs { mtime = t }; meta_dirty = b }

-- The same node, but for its marks; a node that was to be saved still is.
pub record Marked (n n' : Node) : Type 0 where
  pub time : ℕ
  pub meta : Bool
  pub same : n' ≡ marked n time meta
  pub kept : n.meta_dirty ≡ true → meta ≡ true

abbrev pub MarkedCell : Option Node → Option Node → Type 0
MarkedCell none o = o ≡ none
MarkedCell (some n) o = (n' : Node) × (o ≡ some n') × Marked n n'

pub Marked-refl : (n : Node) → Marked n n
Marked-refl n = record { time = n.attrs.mtime; meta = n.meta_dirty; same = refl; kept = λ h. h }

pub MarkedCell-refl : (o : Option Node) → MarkedCell o o
MarkedCell-refl none = refl
MarkedCell-refl (some n) = (n, refl, Marked-refl n)

pub Marked-trans : (a b c : Node) → Marked a b → Marked b c → Marked a c
Marked-trans a b c x y = record {
  time = y.time;
  meta = y.meta;
  same = y.same ∙ ap (λ n. marked n y.time y.meta) x.same;
  kept = λ h. y.kept (ap (λ n. n.meta_dirty) x.same ∙ x.kept h);
}

get_some : Node → Option Node → Node
get_some d none = d
get_some d (some n) = n

pub some_injective : {m n : Node} → ◌≡◌ {A = Option Node} (some m) (some n) → m ≡ n
unfolding get_some
some_injective {m} e = ap (get_some m) e

pub MarkedCell-trans : (a b c : Option Node) → MarkedCell a b → MarkedCell b c → MarkedCell a c
MarkedCell-trans none b c x y = subst (λ o. MarkedCell o c) x y
MarkedCell-trans (some n) none c x y = let (n', e, m) = x in cc
MarkedCell-trans (some n) (some m) c x y =
    let (m', e, a) = x in
    let (c', e', b) = y in
    (c', e', Marked-trans n m c' (subst (λ k. Marked n k) (sym (some_injective e)) a) b)

abbrev pub parent_in : Option Node → Option Ptr
parent_in none = none
parent_in (some n) = n.parent

abbrev pub parent_of : Heap → Ptr → Option Ptr
parent_of heap p = parent_in (heap p)

abbrev pub loaded_in : Option Node → Bool
loaded_in none = false
loaded_in (some n) = not n.load_from_db

abbrev pub loaded_at : Heap → Ptr → Bool
loaded_at heap p = loaded_in (heap p)

pub loaded_in-eq-true :
    (o : Option Node) → loaded_in o ≡ true → (n : Node) × (o ≡ some n) × (n.load_from_db ≡ false)
loaded_in-eq-true none h = cc
loaded_in-eq-true (some n) h = (n, refl, flip n.load_from_db h)
  where
    flip : (b : Bool) → not b ≡ true → b ≡ false
    flip true e = cc
    flip false e = refl

-- A parent is a node that is loaded, and lies below its kids in the heap.
abbrev pub IsRooted : Heap → Type 0
IsRooted heap = (p q : Ptr) → parent_of heap p ≡ some q → (q < p) × (loaded_at heap q ≡ true)

-- q is p or a directory above it.
pub data Above (heap : Heap) (q : Ptr) : Ptr → Type 0 where
  here : {p : Ptr} → p ≡ q → Above heap q p
  up : {p r : Ptr} → parent_of heap p ≡ some r → Above heap q r → Above heap q p

pub MarkedCell-parent : (o o' : Option Node) → MarkedCell o o' → parent_in o' ≡ parent_in o
MarkedCell-parent none o' m = ap parent_in m
MarkedCell-parent (some n) o' (n', e, m) = ap parent_in e ∙ ap (λ k. k.parent) m.same

pub MarkedCell-loaded : (o o' : Option Node) → MarkedCell o o' → loaded_in o' ≡ loaded_in o
MarkedCell-loaded none o' m = ap loaded_in m
MarkedCell-loaded (some n) o' (n', e, m) = ap loaded_in e ∙ ap (λ k. not k.load_from_db) m.same

pub Above-cases :
    {heap : Heap} {q p : Ptr}
    → Above heap q p
    → (p ≡ q) ⊎ ((r : Ptr) × (parent_of heap p ≡ some r) × Above heap q r)
Above-cases (here e) = inl e
Above-cases (up {p} {r} e a) = inr (r, e, a)

-- Directories above a node lie below it in the heap.
pub Above-le : {heap : Heap} {q p : Ptr} → IsRooted heap → Above heap q p → q ≤ p
Above-le rooted (here e) = omega (arith, e)
Above-le rooted (up {p = x} {r} e a) =
    let (lt, there) = rooted x r e in omega (arith, lt, Above-le rooted a)

-- What is to be saved stays so.
pub MarkedCell-dirty :
    (o o' : Option Node) {n : Node}
    → MarkedCell o o'
    → o ≡ some n
    → n.meta_dirty ≡ true
    → (n' : Node) × (o' ≡ some n') × (n'.meta_dirty ≡ true)
MarkedCell-dirty none o' m e d = cc
MarkedCell-dirty (some k) o' (n', e', m) e d =
    (n', e', ap (λ x. x.meta_dirty) m.same ∙ m.kept (ap (λ x. x.meta_dirty) (some_injective e) ∙ d))

-- Only marks differ between the two heaps.
module _ (heap heap' : Heap) (cells : (q : Ptr) → MarkedCell (heap q) (heap' q)) where
  pub same_parents : (p : Ptr) → parent_of heap' p ≡ parent_of heap p
  same_parents p = MarkedCell-parent (heap p) (heap' p) (cells p)

  pub Above-MarkedCell : {q p : Ptr} → Above heap q p → Above heap' q p
  Above-MarkedCell (here e) = here e
  Above-MarkedCell (up {p} e a) = up (same_parents p ∙ e) (Above-MarkedCell a)

  pub Above-of-MarkedCell : {q p : Ptr} → Above heap' q p → Above heap q p
  Above-of-MarkedCell (here e) = here e
  Above-of-MarkedCell (up {p} e a) = up (sym (same_parents p) ∙ e) (Above-of-MarkedCell a)

  pub IsRooted-MarkedCell : IsRooted heap → IsRooted heap'
  IsRooted-MarkedCell rooted p q e =
      let (lt, there) = rooted p q (sym (same_parents p) ∙ e) in
      (lt, MarkedCell-loaded (heap q) (heap' q) (cells q) ∙ there)

-- A node of the heap gets new marks.
module _ (heap : Heap) (p : Ptr) (n : Node) (at_p : heap p ≡ some n) (t : ℕ) (b : Bool)
    (kept : n.meta_dirty ≡ true → b ≡ true) where
  pub touched-MarkedCell : (q : Ptr) → MarkedCell (heap q) (set_cell heap p (marked n t b) q)
  touched-MarkedCell q = elim (ℕ_discrete p q) [
    | yes same ↦
        subst (λ r. MarkedCell (heap r) (set_cell heap p (marked n t b) r)) same
          (subst (λ o. MarkedCell o (set_cell heap p (marked n t b) p)) (sym at_p)
            (
              marked n t b,
              set_cell_self heap p (marked n t b),
              record { time = t; meta = b; same = refl; kept = kept },
            ))
    | no other ↦
        subst (λ o. MarkedCell (heap q) o) (sym (set_cell_ne heap p q (marked n t b) other))
          (MarkedCell-refl (heap q))
  ]
