-- ===== src/Dfs/Handlers/Kids.antt =====
-- A node that is put into a directory: what Mkdir and Create of sylan/p2/dfs/fs.go promise.
use cmsc818e.Prelude.{
  ℕ, String, ◌+◌, ◌≡◌, ◌≢◌, sym, ap, ◌∙◌, true, false, [], none, some, if◌then◌else◌, Result, ok,
  deref, ◌⊎◌,
}
use cmsc818e.Prelude.Dict.{Dict, find, put}
use mathlib.Core.Path.{subst}
use cmsc818e.Dfs.Chunks.{wrap}
use cmsc818e.Dfs.State.{
  Ptr, Node, Fs, Reply, done, eperm, eexist, zero_node, is_dir, set_cell, ◌>>=◌, lift, node_at,
  set_node,
}
use cmsc818e.Dfs.State.Heap.{bind_of, node_at_of}
use cmsc818e.Dfs.Load.Marks.{Marked, MarkedCell, some_injective, Above}
use cmsc818e.Dfs.Load.Update.{Saved}
use cmsc818e.Dfs.Load.Grow.{IsHeap}
use cmsc818e.Dfs.Ops.{init_attrs, set_kid}

-- The node that init makes, without its parent.
abbrev pub fresh_node : {S : Type 0} → Fs S → String → ℕ → Node
fresh_node s name mode = record zero_node {
  name = name;
  attrs = init_attrs s.next_ind (s.clock 0) mode s.uid s.gid;
  content = some [];
  kids = if is_dir mode then some [] else none;
}

abbrev pub with_kid : Node → Dict Ptr → String → Ptr → Node
with_kid d kids name c = record d { kids = some (put name c kids) }

abbrev pub with_parent : Node → Ptr → Node
with_parent n p = record n { parent = some p }

pub set_kid_lem :
    {S : Type 0} (p : Ptr) (name : String) (q : Ptr) (s : Fs S) {d : Node} {kids : Dict Ptr}
    → s.heap p ≡ some d
    → d.kids ≡ some kids
    → set_kid p name q s ≡ ok (tt, record s { heap = set_cell s.heap p (with_kid d kids name q) })
unfolding set_kid
set_kid_lem p name q s {d} at_p has_kids =
    bind_of (node_at p) _ s (node_at_of p s at_p)
    ∙ ap (λ o. (lift (deref o) >>= λ ks. set_node p (with_kid d ks name q)) s) has_kids

-- A node of the heap that will be saved, and that is `n` but for the marks.
abbrev pub SavedAs : {S : Type 0} → Fs S → Ptr → Node → Type 0
SavedAs s q n = (n' : Node) × (s.heap q ≡ some n') × Marked n n' × (n'.meta_dirty ≡ true)

pub SavedAs-of :
    {S : Type 0} (s t : Fs S) (q : Ptr) (n : Node)
    → s.heap q ≡ some n
    → MarkedCell (s.heap q) (t.heap q)
    → Saved t q
    → SavedAs t q n
SavedAs-of s t q n at_q cell (m, at', dirty) =
    let (n', at_t, same) = subst (λ o. MarkedCell o (t.heap q)) at_q cell in
    let is : m ≡ n' = some_injective (sym at' ∙ at_t) in
    (n', at_t, same, ap (λ k. k.meta_dirty) (sym is) ∙ dirty)

-- The outcome of a successful Mkdir or Create: a new node with the next inode in the directory,
-- both to be saved with all directories above; no other node changes but for its marks.
pub record Created {S : Type 0} (s s' : Fs S) (p : Ptr) (d : Node) (kids : Dict Ptr) (name : String)
    (mode : ℕ) : Type 0 where
  pub kid : SavedAs s' s.next_ptr (with_parent (fresh_node s name mode) p)
  pub dir : SavedAs s' p (with_kid d kids name s.next_ptr)
  pub above : (q : Ptr) → Above s.heap q p → Saved s' q
  pub others : (q : Ptr) → s.next_ptr ≢ q → p ≢ q → MarkedCell (s.heap q) (s'.heap q)
  pub next_inode : s'.next_ind ≡ wrap (s.next_ind + 1)
  pub same_db : s'.db ≡ s.db
  pub same_root : s'.root ≡ s.root
  pub unlocked : s'.locked ≡ false
  pub ok_heap : IsHeap s'

-- The state after init has made the node.
abbrev pub made_of : {S : Type 0} → Fs S → String → ℕ → Fs S
made_of s name mode = record s {
  clock = λ i. s.clock (i + 1);
  next_ind = wrap (s.next_ind + 1);
  heap = set_cell s.heap s.next_ptr (fresh_node s name mode);
  next_ptr = s.next_ptr + 1;
}

-- What a handler that creates a node answers, and the state that it leaves.
abbrev pub Outcome :
    {S : Type 0} → Fs S → Ptr → Node → Dict Ptr → String → ℕ → Result (Reply Ptr × Fs S) → Type 0
Outcome {S} s p d kids name mode res =
    ((s.read_only ≡ true) × (res ≡ ok (eperm, s)))
    ⊎ ((s.read_only ≡ false)
        × (q : Ptr) × (find name kids ≡ some q)
        × (res ≡ ok (eexist, made_of s name mode)))
    ⊎ ((s.read_only ≡ false)
        × (find name kids ≡ none)
        × (t : Fs S) × (res ≡ ok (done s.next_ptr, t))
        × Created s t p d kids name mode)
