-- ===== src/Dfs/Load/Update.antt =====
-- What update of sylan/p2/dfs/fs.go does: it ends, and marks the node and all directories above it.
use cmsc818e.Prelude.{
  ℕ, zero, suc, ◌+◌, ◌<◌, ◌≡◌, inl, inr, refl, sym, ap, ◌∙◌, arith, true, false, Option, none, some,
  ok,
}
use mathlib.Core.Path.{subst}
use cmsc818e.Dfs.State.{Ptr, Node, Fs, set_cell}
use cmsc818e.Dfs.State.Heap.{set_cell_self, set_cell_ne}
use cmsc818e.Dfs.Wire.{Env}
use cmsc818e.Dfs.Load.{ensure_loaded, touch, update_from, update}
use cmsc818e.Dfs.Load.Marks.{
  marked, MarkedCell, MarkedCell-trans, touched-MarkedCell, parent_in, parent_of, loaded_at,
  loaded_in-eq-true, IsRooted, MarkedCell-loaded, IsRooted-MarkedCell, some_injective, Above, here,
  up, Above-le, Above-cases, MarkedCell-dirty, Above-MarkedCell, Above-of-MarkedCell,
}

-- The node is there, and will be saved by the next round of the flusher that reaches it.
abbrev pub Saved : {S : Type 0} → Fs S → Ptr → Type 0
Saved s q = (n : Node) × (s.heap q ≡ some n) × (n.meta_dirty ≡ true)

no_parent : (r : Ptr) → ◌≡◌ {A = Option Ptr} none (some r) → ⊥
no_parent r e = cc

-- After update of p: nodes differ by their marks only, p has the time of the clock, those above it will
-- be saved, others are as they were, and so is the rest of the state but the clock.
pub record Updated {S : Type 0} (p : Ptr) (s s' : Fs S) : Type 0 where
  pub cells : (q : Ptr) → MarkedCell (s.heap q) (s'.heap q)
  pub own : (n : Node) → s.heap p ≡ some n → s'.heap p ≡ some (marked n (s.clock 0) true)
  pub to_save : (q : Ptr) → Above s.heap q p → Saved s' q
  pub frame : (q : Ptr) → (Above s.heap q p → ⊥) → s'.heap q ≡ s.heap q
  pub rest : s' ≡ record s { heap = s'.heap; clock = s'.clock }

module _ {S : Type 0} where
  -- The state after the marks of one node are set.
  abbrev pub touched : Fs S → Ptr → Node → Fs S
  touched s p n = record s {
    clock = λ i. s.clock (i + 1);
    heap = set_cell s.heap p (marked n (s.clock 0) true);
  }

  touched_cells :
      (s : Fs S) (p : Ptr) (n : Node)
      → s.heap p ≡ some n
      → (q : Ptr) → MarkedCell (s.heap q) ((touched s p n).heap q)
  touched_cells s p n at_p = touched-MarkedCell s.heap p n at_p (s.clock 0) true (λ h. refl)

  -- The node itself is touched, and it has no parent.
  touched-Updated :
      (s : Fs S) (p : Ptr) (n : Node)
      → s.heap p ≡ some n
      → n.parent ≡ none
      → Updated p s (touched s p n)
  touched-Updated s p n at_p top = record {
    cells = touched_cells s p n at_p;
    own = λ m at_m.
        set_cell_self s.heap p (marked n (s.clock 0) true)
        ∙ ap (λ k. some (marked k (s.clock 0) true)) (some_injective (sym at_p ∙ at_m));
    to_save = λ q a. elim (Above-cases a) [
      | inl e ↦
          subst (λ x. Saved (touched s p n) x) e
            (marked n (s.clock 0) true, set_cell_self s.heap p (marked n (s.clock 0) true), refl)
      | inr (r, link, a') ↦ absurd (no_parent r (sym (ap parent_in at_p ∙ top) ∙ link))
    ];
    frame = λ q out. set_cell_ne s.heap p q (marked n (s.clock 0) true) (λ e. out (here e));
    rest = refl;
  }

  touched-Updated-up :
      (s s' : Fs S) (p r : Ptr) (n : Node)
      → s.heap p ≡ some n
      → n.parent ≡ some r
      → IsRooted (touched s p n).heap
      → r < p
      → Updated r (touched s p n) s'
      → Updated p s s'
  touched-Updated-up s s' p r n at_p above rooted lt u =
      let s1 = touched s p n in
      let cells = touched_cells s p n at_p in
      let link : parent_of s.heap p ≡ some r = rw at_p above in
      record {
        cells = λ q. MarkedCell-trans (s.heap q) (s1.heap q) (s'.heap q) (cells q) (u.cells q);
        own = λ m at_m.
            u.frame p (λ a. absurd (omega (arith, lt, Above-le rooted a)))
            ∙ set_cell_self s.heap p (marked n (s.clock 0) true)
            ∙ ap (λ k. some (marked k (s.clock 0) true)) (some_injective (sym at_p ∙ at_m));
        to_save = λ q a. elim (Above-cases a) [
          | inl e ↦
              subst (λ x. Saved s' x) e
                (MarkedCell-dirty (s1.heap p) (s'.heap p) (u.cells p)
                  (set_cell_self s.heap p (marked n (s.clock 0) true)) refl)
          | inr (r', link', a') ↦
              let same : r' ≡ r = cc in
              u.to_save q
                (Above-MarkedCell s.heap s1.heap cells (subst (λ x. Above s.heap q x) same a'))
        ];
        frame = λ q out.
            u.frame q (λ a. out (up link (Above-of-MarkedCell s.heap s1.heap cells a)))
            ∙ set_cell_ne s.heap p q (marked n (s.clock 0) true) (λ e. out (here e));
        rest = u.rest;
      }

module _ {S : Type 0} (env : Env S) where
  pub ensure_loaded_lem :
      (p : Ptr) (s : Fs S) {n : Node}
      → s.heap p ≡ some n
      → n.load_from_db ≡ false
      → ensure_loaded env p s ≡ ok (tt, s)
  unfolding ensure_loaded
  ensure_loaded_lem p s at_p loaded = rw (at_p, loaded) refl

  touch_lem :
      (p : Ptr) (s : Fs S) {n : Node} → s.heap p ≡ some n → touch env p s ≡ ok (tt, touched s p n)
  unfolding touch
  touch_lem p s at_p = rw at_p refl

  update_from_step :
      (fuel : ℕ) (p : Ptr) (s : Fs S) {n : Node}
      → s.heap p ≡ some n
      → n.load_from_db ≡ false
      → update_from env (suc fuel) (some p) s ≡ update_from env fuel n.parent (touched s p n)
  unfolding update_from
  update_from_step fuel p s {n} at_p loaded =
      rw
        (
          ensure_loaded_lem p s at_p loaded,
          touch_lem p s at_p,
          set_cell_self s.heap p (marked n (s.clock 0) true),
        )
        refl

  update_from-none : (fuel : ℕ) (s : Fs S) → update_from env fuel none s ≡ ok (tt, s)
  unfolding update_from
  update_from-none zero s = refl
  update_from-none (suc fuel) s = refl

  update_from-Updated :
      (fuel : ℕ) (p : Ptr) (s : Fs S)
      → p < fuel
      → loaded_at s.heap p ≡ true
      → IsRooted s.heap
      → (s' : Fs S) × (update_from env fuel (some p) s ≡ ok (tt, s')) × Updated p s s'
  update_from-Updated zero p s lt loaded rooted = absurd (omega arith)
  update_from-Updated (suc fuel) p s lt loaded rooted =
      let (n, at_p, is_loaded) = loaded_in-eq-true (s.heap p) loaded in
      let cells = touched_cells s p n at_p in
      go n at_p is_loaded n.parent refl (λ r lt' there.
        update_from-Updated fuel r (touched s p n) lt' there
          (IsRooted-MarkedCell s.heap (touched s p n).heap cells rooted))
    where
      go :
          (n : Node)
          → s.heap p ≡ some n
          → n.load_from_db ≡ false
          → (o : Option Ptr) → n.parent ≡ o
          → ((r : Ptr)
              → r < fuel
              → loaded_at (touched s p n).heap r ≡ true
              → (s' : Fs S) × (update_from env fuel (some r) (touched s p n) ≡ ok (tt, s'))
                × Updated r (touched s p n) s')
          → (s' : Fs S) × (update_from env (suc fuel) (some p) s ≡ ok (tt, s')) × Updated p s s'
      go n at_p is_loaded none top ih = (
        touched s p n,
        update_from_step fuel p s at_p is_loaded
            ∙ ap (λ o. update_from env fuel o (touched s p n)) top
            ∙ update_from-none fuel (touched s p n),
        touched-Updated s p n at_p top,
      )
      go n at_p is_loaded (some r) above ih =
          let (below, there) = rooted p r (ap parent_in at_p ∙ above) in
          let cells = touched_cells s p n at_p in
          let (s', ran, u) =
            ih r (omega arith)
              (MarkedCell-loaded (s.heap r) ((touched s p n).heap r) (cells r) ∙ there) in
          (
            s',
            update_from_step fuel p s at_p is_loaded
                ∙ ap (λ o. update_from env fuel o (touched s p n)) above
                ∙ ran,
            touched-Updated-up s s' p r n at_p above
                (IsRooted-MarkedCell s.heap (touched s p n).heap cells rooted) below u,
          )

  -- From a loaded node whose directories lie below it in the heap, update returns.
  pub update-Updated :
      (p : Ptr) (s : Fs S)
      → p < s.next_ptr
      → loaded_at s.heap p ≡ true
      → IsRooted s.heap
      → (s' : Fs S) × (update env (some p) s ≡ ok (tt, s')) × Updated p s s'
  unfolding update
  update-Updated p s lt loaded rooted = update_from-Updated s.next_ptr p s lt loaded rooted
