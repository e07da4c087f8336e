-- ===== src/Dfs/Handlers/Finish.antt =====
-- How the handlers end: update, then unlock.
use cmsc818e.Prelude.{
  Bool, ◌<◌, ◌≡◌, sym, ap, ◌∙◌, true, false, Option, some, none, ok, arith, inl, inr, ltb, ltb→lt,
  Bool-cases,
}
use mathlib.Core.Path.{subst}
use cmsc818e.Dfs.State.{Ptr, Node, Fs, Cmd, ◌>>=◌, ◌>>◌, unlock}
use cmsc818e.Dfs.State.Heap.{bind_of, unlock_of}
use cmsc818e.Dfs.Wire.{Env}
use cmsc818e.Dfs.Load.{update}
use cmsc818e.Dfs.Load.Marks.{Heap, loaded_in, loaded_at, MarkedCell}
use cmsc818e.Dfs.Load.Update.{Updated, update-Updated}
use cmsc818e.Dfs.Load.Grow.{IsHeap}
use cmsc818e.Dfs.Load.Shape.{SameShape, IsRooted-SameShape, MarkedCell-SameShape}

-- A node of the heap lies below next_ptr.
pub used-lt-next_ptr :
    {S : Type 0} (s : Fs S) (p : Ptr) {n : Node} → IsHeap s → s.heap p ≡ some n → p < s.next_ptr
used-lt-next_ptr s p {n} ok_heap at_p = elim (Bool-cases (ltb p s.next_ptr)) [
  | inl lt ↦ ltb→lt p s.next_ptr lt
  | inr ge ↦
      let gone : some n ≡ none = sym at_p ∙ ok_heap.fresh p (ground arith) in absurd (off n gone)
]
  where
    off : (n : Node) → ◌≡◌ {A = Option Node} (some n) none → ⊥
    off n e = cc

pub loaded_at_of :
    (heap : Heap) (p : Ptr) {n : Node}
    → heap p ≡ some n
    → n.load_from_db ≡ false
    → loaded_at heap p ≡ true
loaded_at_of heap p at_p is_loaded = ap loaded_in at_p ∙ ap (λ b. loaded_of b) is_loaded
  where
    loaded_of : Bool → Bool
    loaded_of true = false
    loaded_of false = true

pub update_of :
    {S : Type 0} (env : Env S) (p : Ptr) (s : Fs S) {n : Node}
    → s.heap p ≡ some n
    → n.load_from_db ≡ false
    → IsHeap s
    → (t : Fs S) × (update env (some p) s ≡ ok (tt, t)) × Updated p s t
update_of env p s at_p is_loaded ok_heap =
    update-Updated env p s (used-lt-next_ptr s p ok_heap at_p)
      (loaded_at_of s.heap p at_p is_loaded) ok_heap.rooted

-- The end of a handler, where update has returned: the lock is freed.
pub unlock_after :
    {S A : Type 0} (env : Env S) (p : Ptr) (rest : Cmd S A) (s t : Fs S)
    → s.locked ≡ true
    → update env (some p) s ≡ ok (tt, t)
    → Updated p s t
    → (update env (some p) >>= λ _. (unlock >> rest)) s ≡ rest (record t { locked = false })
unlock_after env p rest s t held ran u =
    bind_of (update env (some p)) (λ _. (unlock >> rest)) s ran
    ∙ bind_of unlock (λ _. rest) t (unlock_of t (ap (λ x. x.locked) u.rest ∙ held))

-- A running file system stays one under a change of the heap that keeps its shape.
pub IsHeap-SameShape :
    {S : Type 0} (s t : Fs S)
    → t.next_ptr ≡ s.next_ptr
    → SameShape s.heap t.heap
    → ((q : Ptr) → s.heap q ≡ none → t.heap q ≡ none)
    → IsHeap s
    → IsHeap t
IsHeap-SameShape s t same_next shape gone ok_heap = record {
  rooted = IsRooted-SameShape s.heap t.heap shape ok_heap.rooted;
  fresh = λ q le. gone q (ok_heap.fresh q (omega (arith, le, same_next)));
}

pub IsHeap-Updated : {S : Type 0} (p : Ptr) (s t : Fs S) → Updated p s t → IsHeap s → IsHeap t
IsHeap-Updated p s t u ok_heap =
    IsHeap-SameShape s t (ap (λ x. x.next_ptr) u.rest) (MarkedCell-SameShape s.heap t.heap u.cells)
      (λ q e. subst (λ o. MarkedCell o (t.heap q)) e (u.cells q)) ok_heap

pub IsHeap-unlocked : {S : Type 0} (t : Fs S) → IsHeap t → IsHeap (record t { locked = false })
IsHeap-unlocked t h = record { rooted = h.rooted; fresh = h.fresh }
