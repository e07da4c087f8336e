-- ===== src/Dfs/Load/Grow.antt =====
-- A heap to which a new kid of a directory is added.
use cmsc818e.Prelude.{◌≤◌, ◌<◌, ◌≡◌, ◌≢◌, sym, ap, ◌∙◌, arith, Bool, true, false, not, none, some}
use native.Mathlib.Decide.{ℕ_discrete}
use cmsc818e.Dfs.State.{Ptr, Node, Fs}
use cmsc818e.Dfs.Load.Marks.{
  Heap, parent_in, parent_of, loaded_in, loaded_at, IsRooted, Above, here, up,
}

-- The heap of a running file system: parents are loaded and lie below their kids, and the addresses
-- from next_ptr on are free.
pub record IsHeap {S : Type 0} (s : Fs S) : Type 0 where
  pub rooted : IsRooted s.heap
  pub fresh : (p : Ptr) → s.next_ptr ≤ p → s.heap p ≡ none

-- heap' has a new node at c below the directory p, and differs from heap at p and c only.
pub record Grown (heap heap' : Heap) (p c : Ptr) : Type 0 where
  pub dir : Node
  pub dir' : Node
  pub kid : Node
  pub below : p < c
  pub was_free : heap c ≡ none
  pub was_dir : heap p ≡ some dir
  pub is_loaded : dir.load_from_db ≡ false
  pub new_kid : heap' c ≡ some kid
  pub kid_parent : kid.parent ≡ some p
  pub new_dir : heap' p ≡ some dir'
  pub same_parent : dir'.parent ≡ dir.parent
  pub same_loaded : dir'.load_from_db ≡ dir.load_from_db
  pub others : (q : Ptr) → c ≢ q → p ≢ q → heap' q ≡ heap q

module _ (heap heap' : Heap) (p c : Ptr) (g : Grown heap heap' p c) where
  Grown-loaded : (q : Ptr) → loaded_at heap q ≡ true → loaded_at heap' q ≡ true
  Grown-loaded q h = elim (ℕ_discrete c q) [
    | yes e ↦ absurd (off (sym h ∙ ap (λ r. loaded_at heap r) (sym e) ∙ ap loaded_in g.was_free))
    | no other ↦ elim (ℕ_discrete p q) [
      | yes e ↦
          ap (λ r. loaded_at heap' r) (sym e)
          ∙ ap loaded_in g.new_dir
          ∙ ap not (g.same_loaded ∙ g.is_loaded)
      | no other' ↦ ap loaded_in (g.others q other other') ∙ h
    ]
  ]
    where
      off : ◌≡◌ {A = Bool} true false → ⊥
      off e = cc

  pub IsRooted-Grown : IsRooted heap → IsRooted heap'
  IsRooted-Grown rooted q r e = elim (ℕ_discrete c q) [
    | yes same ↦
        let up : some p ≡ some r =
          sym g.kid_parent ∙ sym (ap parent_in g.new_kid) ∙ ap (λ x. parent_of heap' x) same ∙ e in
        let is : p ≡ r = cc in
        (omega (arith, g.below, same, is), ap (λ x. loaded_at heap' x) (sym is) ∙ dir_loaded)
    | no other ↦ elim (ℕ_discrete p q) [
      | yes same ↦
          let up : parent_of heap q ≡ some r =
            ap (λ x. parent_of heap x) (sym same)
            ∙ ap parent_in g.was_dir
            ∙ sym g.same_parent
            ∙ sym (ap parent_in g.new_dir)
            ∙ ap (λ x. parent_of heap' x) same
            ∙ e in
          let (lt, there) = rooted q r up in (lt, Grown-loaded r there)
      | no other' ↦
          let (lt, there) = rooted q r (sym (ap parent_in (g.others q other other')) ∙ e) in
          (lt, Grown-loaded r there)
    ]
  ]
    where
      dir_loaded : loaded_at heap' p ≡ true
      dir_loaded = ap loaded_in g.new_dir ∙ ap not (g.same_loaded ∙ g.is_loaded)

  Grown-parent : (q : Ptr) → c ≢ q → parent_of heap' q ≡ parent_of heap q
  Grown-parent q other = elim (ℕ_discrete p q) [
    | yes same ↦
        ap (λ x. parent_of heap' x) (sym same)
        ∙ ap parent_in g.new_dir
        ∙ g.same_parent
        ∙ sym (ap parent_in g.was_dir)
        ∙ ap (λ x. parent_of heap x) same
    | no other' ↦ ap parent_in (g.others q other other')
  ]

  -- The directories above an old node stay above it.
  pub Above-Grown : IsRooted heap → (q : Ptr) {x : Ptr} → Above heap q x → x < c → Above heap' q x
  Above-Grown rooted q (here e) lt = here e
  Above-Grown rooted q (up {p = x} {r} e a) lt =
      let (less, there) = rooted x r e in
      up (Grown-parent x (λ same. omega (arith, lt, same)) ∙ e)
        (Above-Grown rooted q a (omega (arith, less, lt)))
