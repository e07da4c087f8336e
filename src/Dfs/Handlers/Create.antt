-- ===== src/Dfs/Handlers/Create.antt =====
-- What Mkdir and Create of sylan/p2/dfs/fs.go do.
use cmsc818e.Prelude.{
  ℕ, String, ◌+◌, ◌≤◌, ◌<◌, ◌≡◌, ◌≢◌, refl, sym, ap, ◌∙◌, arith, Bool, true, false, [], Option,
  none, some, if◌then◌else◌, ok, inl, inr, Bool-cases, Option-cases, ltb, ltb→lt,
}
use cmsc818e.Prelude.Dict.{Dict, find}
use mathlib.Core.Path.{subst}
use cmsc818e.Dfs.State.{
  Ptr, Node, Fs, Reply, done, eexist, Cmd, is_dir, or_dir, set_cell, ◌>>=◌, ◌>>◌, pure, node_at,
  set_node, lock, unlock,
}
use cmsc818e.Dfs.State.Heap.{set_cell_self, set_cell_ne, bind_of, lock_of, unlock_of, node_at_of}
use cmsc818e.Dfs.Wire.{Env}
use cmsc818e.Dfs.Load.{update}
use cmsc818e.Dfs.Load.Marks.{
  MarkedCell, parent_in, parent_of, loaded_in, IsRooted-MarkedCell, here, up,
}
use cmsc818e.Dfs.Load.Update.{Updated, update-Updated}
use cmsc818e.Dfs.Load.Grow.{IsHeap, Grown, IsRooted-Grown, Above-Grown}
use cmsc818e.Dfs.Ops.{init_node, kid_of, set_kid}
use cmsc818e.Dfs.Handlers.{guard_write, add_new, create_node, create, mkdir}
use cmsc818e.Dfs.Handlers.Kids.{
  fresh_node, with_kid, with_parent, set_kid_lem, SavedAs-of, Created, made_of, Outcome,
}

module _ {S : Type 0} (env : Env S) (s : Fs S) (p : Ptr) (d : Node) (kids : Dict Ptr)
    (name : String) (mode : ℕ) (at_p : s.heap p ≡ some d) (is_loaded : d.load_from_db ≡ false)
    (has_kids : d.kids ≡ some kids) (free : s.locked ≡ false) (ok_heap : IsHeap s) where
  abbrev c : Ptr
  c = s.next_ptr

  abbrev new_heap : Ptr → Option Node
  new_heap = set_cell s.heap c (fresh_node s name mode)

  abbrev dir_heap : Ptr → Option Node
  dir_heap = set_cell new_heap p (with_kid d kids name c)

  abbrev kid_heap : Ptr → Option Node
  kid_heap = set_cell dir_heap c (with_parent (fresh_node s name mode) p)

  -- After init, and after the new node is linked into its directory.
  abbrev made : Fs S
  made = made_of s name mode

  abbrev linked : Fs S
  linked = record made { heap = kid_heap; locked = true }

  abbrev locked : Fs S
  locked = record made { locked = true }

  below : p < c
  below = elim (Bool-cases (ltb p c)) [
    | inl lt ↦ ltb→lt p c lt
    | inr ge ↦
        let gone : some d ≡ none = sym at_p ∙ ok_heap.fresh p (ground arith) in absurd (off gone)
  ]
    where
      off : ◌≡◌ {A = Option Node} (some d) none → ⊥
      off e = cc

  apart : c ≢ p
  apart e = omega (arith, below, e)

  dir_after : new_heap p ≡ some d
  dir_after = set_cell_ne s.heap c p (fresh_node s name mode) apart ∙ at_p

  kid_after : dir_heap c ≡ some (fresh_node s name mode)
  kid_after =
      set_cell_ne new_heap p c (with_kid d kids name c) (λ e. apart (sym e))
      ∙ set_cell_self s.heap c (fresh_node s name mode)

  -- The steps before update.
  add_new-linked :
      add_new env p name c none made
      ≡ (update env (some c) >>= λ _. (unlock >> pure (done c))) linked
  unfolding add_new
  add_new-linked =
      let finish : Cmd S (Reply Ptr) = update env (some c) >>= λ _. (unlock >> pure (done c)) in
      let link : Cmd S (Reply Ptr) =
        node_at c >>= λ n. (set_node c (with_parent n p) >>= λ _. finish) in
      bind_of lock (λ _. (set_kid p name c >>= λ _. link)) made (lock_of made free)
      ∙ bind_of (set_kid p name c) (λ _. link) locked
          (set_kid_lem p name c locked dir_after has_kids)
      ∙ bind_of (node_at c) (λ n. (set_node c (with_parent n p) >>= λ _. finish))
          (record locked { heap = dir_heap })
          (node_at_of c (record locked { heap = dir_heap }) kid_after)

  grown : Grown s.heap kid_heap p c
  grown = record {
    dir = d;
    dir' = with_kid d kids name c;
    kid = with_parent (fresh_node s name mode) p;
    below = below;
    was_free = ok_heap.fresh c (omega arith);
    was_dir = at_p;
    is_loaded = is_loaded;
    new_kid = set_cell_self dir_heap c (with_parent (fresh_node s name mode) p);
    kid_parent = refl;
    new_dir =
        set_cell_ne dir_heap c p (with_parent (fresh_node s name mode) p) apart
        ∙ set_cell_self new_heap p (with_kid d kids name c);
    same_parent = refl;
    same_loaded = refl;
    others = λ q not_c not_p.
        set_cell_ne dir_heap c q (with_parent (fresh_node s name mode) p) not_c
        ∙ set_cell_ne new_heap p q (with_kid d kids name c) not_p
        ∙ set_cell_ne s.heap c q (fresh_node s name mode) not_c;
  }

  linked-Updated : (t : Fs S) × (update env (some c) linked ≡ ok (tt, t)) × Updated c linked t
  unfolding grown
  linked-Updated =
      update-Updated env c linked (omega arith) (ap loaded_in grown.new_kid)
        (IsRooted-Grown s.heap kid_heap p c grown ok_heap.rooted)

  parent_link : parent_of kid_heap c ≡ some p
  unfolding grown
  parent_link = ap parent_in grown.new_kid

  Updated-Created :
      (t : Fs S) → Updated c linked t → Created s (record t { locked = false }) p d kids name mode
  unfolding grown
  Updated-Created t u = record {
    kid = SavedAs-of linked t c _ grown.new_kid (u.cells c) (u.to_save c (here refl));
    dir =
        SavedAs-of linked t p _ grown.new_dir (u.cells p)
          (u.to_save p (up parent_link (here refl)));
    above = λ q a.
        u.to_save q
          (up parent_link (Above-Grown s.heap kid_heap p c grown ok_heap.rooted q a below));
    others = λ q not_c not_p.
        subst (λ o. MarkedCell o (t.heap q)) (grown.others q not_c not_p) (u.cells q);
    next_inode = ap (λ x. x.next_ind) u.rest;
    same_db = ap (λ x. x.db) u.rest;
    same_root = ap (λ x. x.root) u.rest;
    unlocked = refl;
    ok_heap = record {
      rooted =
          IsRooted-MarkedCell kid_heap t.heap u.cells
            (IsRooted-Grown s.heap kid_heap p c grown ok_heap.rooted);
      fresh = λ q le. free_after q (omega (arith, le, ap (λ x. x.next_ptr) u.rest));
    };
  }
    where
      free_after : (q : Ptr) → c + 1 ≤ q → t.heap q ≡ none
      free_after q le =
          let was : kid_heap q ≡ none =
            grown.others q (λ e. omega (arith, le, e)) (λ e. omega (arith, le, e, below))
            ∙ ok_heap.fresh q (omega (arith, le)) in
          subst (λ o. MarkedCell o (t.heap q)) was (u.cells q)

  create_node-absent :
      find name kids ≡ none
      → (t : Fs S) × (create_node env p name mode s ≡ ok (done c, t))
        × Created s t p d kids name mode
  unfolding create_node init_node
  create_node-absent absent =
      let (t, ran, u) = linked-Updated in
      (
        record t { locked = false },
        bind_of (node_at p) (λ n. add_new env p name c (kid_of n.kids name)) made
              (node_at_of p made dir_after)
            ∙ ap (λ o. add_new env p name c o made) (ap (λ o. kid_of o name) has_kids ∙ absent)
            ∙ add_new-linked
            ∙ bind_of (update env (some c)) (λ _. (unlock >> pure (done c))) linked ran
            ∙ bind_of unlock (λ _. pure (done c)) t (unlock_of t (ap (λ x. x.locked) u.rest)),
        Updated-Created t u,
      )

  -- The name is taken: the directory is as it was, and the inode of the new node is used up.
  create_node-taken :
      (q : Ptr) → find name kids ≡ some q → create_node env p name mode s ≡ ok (eexist, made)
  unfolding create_node init_node add_new
  create_node-taken q taken =
      bind_of (node_at p) (λ n. add_new env p name c (kid_of n.kids name)) made
        (node_at_of p made dir_after)
      ∙ ap (λ o. add_new env p name c o made) (ap (λ o. kid_of o name) has_kids ∙ taken)

  guard_write-Outcome :
      (read_only : Bool)
      → s.read_only ≡ read_only
      → Outcome s p d kids name mode (guard_write read_only (create_node env p name mode) s)
  guard_write-Outcome true e = inl (e, refl)
  guard_write-Outcome false e = elim (Option-cases (find name kids)) [
    | inl absent ↦
        let (t, ran, all) = create_node-absent absent in inr (inr (e, absent, t, ran, all))
    | inr (q, taken) ↦ inr (inl (e, q, taken, create_node-taken q taken))
  ]

  -- In a loaded directory, with the lock free, Create answers EPERM on a read-only file system and
  -- changes nothing, EEXIST for a name that is taken, using up an inode only, and else returns a new
  -- node: it has the name, the mode, the next inode, no content, and p as parent; p has it as a kid;
  -- both and all directories above will be saved; no other node changes but for its marks.
  pub create-Outcome : Outcome s p d kids name mode (create env p name mode s)
  unfolding create
  create-Outcome = guard_write-Outcome s.read_only refl

pub is_dir-or_dir : (m : ℕ) → is_dir (or_dir m) ≡ true
is_dir-or_dir m = elim (Bool-cases (is_dir m)) [
  | inl yes_dir ↦ rw yes_dir yes_dir
  | inr not_dir ↦ rw not_dir (ground arith)
]

-- Mkdir does what Create does with the mode of a directory; the node that it makes has an empty map of
-- kids, so that files can be made in it.
pub mkdir-Outcome :
    {S : Type 0} (env : Env S) (s : Fs S) (p : Ptr) (d : Node) (kids : Dict Ptr) (name : String)
    → (mode : ℕ)
    → (at_p : s.heap p ≡ some d) (is_loaded : d.load_from_db ≡ false)
      (has_kids : d.kids ≡ some kids)
    → (free : s.locked ≡ false) (ok_heap : IsHeap s)
    → Outcome s p d kids name (or_dir mode) (mkdir env p name mode s)
      × (is_dir (or_dir mode) ≡ true)
      × ((fresh_node s name (or_dir mode)).kids ≡ some [])
unfolding mkdir
mkdir-Outcome env s p d kids name mode at_p is_loaded has_kids free ok_heap = (
  guard_write-Outcome env s p d kids name (or_dir mode) at_p is_loaded has_kids free ok_heap
      s.read_only refl,
  is_dir-or_dir mode,
  ap (λ b. if b then some [] else none) (is_dir-or_dir mode),
)
