-- ===== src/Memfs/Create.antt =====
-- Create and Mkdir of the in-memory file system of sylan/p1/dfs.go, and Lookup after them.
use cmsc818e.Prelude.{
  ℕ, String, ◌+◌, Option, none, some, [], false, ◌==◌, if◌then◌else◌, Option-cases, ◌≡◌, ◌≢◌, ◌⊎◌,
  inl, inr, refl, ap, ◌∙◌, arith, ok, deref, str_eq,
}
use cmsc818e.Prelude.Dict.{Dict, find, put, find-put}
use cmsc818e.Prelude.Command.{bind_of, lift, pure}
use cmsc818e.Dfs.Chunks.{wrap}
use cmsc818e.Dfs.State.{Ptr, is_dir, done, eexist}
use cmsc818e.Dfs.Ops.{kid_of, init_attrs}
use cmsc818e.Dfs.Handlers.{reply_of}
use cmsc818e.Memfs.{
  Node, Mem, node_at, set_node, set_cell, lookup, set_kid, init_node, add_new, create,
}
use cmsc818e.Memfs.Remove.{node_at_of, lookup_of, eq_self}

abbrev pub made : String → ℕ → Mem → Mem
made name mode s = record s {
  heap = set_cell s.heap s.next_ptr (record {
    nid = s.next_ind;
    name = name;
    attrs = init_attrs s.next_ind (s.clock 0) mode s.uid s.gid;
    dirty = false;
    kids = if is_dir mode then some [] else none;
    content = some [];
  });
  next_ptr = s.next_ptr + 1;
  next_ind = wrap (s.next_ind + 1);
  clock = λ i. s.clock (i + 1);
}

init_node_of :
    (name : String) (mode : ℕ) (s : Mem) → init_node name mode s ≡ ok (s.next_ptr, made name mode s)
unfolding init_node
init_node_of name mode s = refl

set_kid_of :
    (p q : Ptr) (name : String) (s : Mem) (d : Node) (kids : Dict Ptr)
    → s.heap p ≡ some d
    → d.kids ≡ some kids
    → set_kid p name q s
      ≡ ok (tt, record s { heap = set_cell s.heap p (record d { kids = some (put name q kids) }) })
unfolding set_kid
set_kid_of p q name s d kids at_p has_kids =
    bind_of (node_at p) _ s (node_at_of p s at_p)
    ∙ bind_of (lift (deref d.kids)) (λ ks. set_node p (record d { kids = some (put name q ks) })) s
        (ap (λ o. lift (deref o) s) has_kids)

module _ (s : Mem) (p : Ptr) (d : Node) (kids : Dict Ptr) (name : String) (mode : ℕ) where
  -- In a directory with the kids `kids`, at an address that is in use, Create answers EEXIST for a name
  -- that is there, and Lookup finds in the directory what it found before. Else it returns a new node, and
  -- Lookup finds it under the name and all else as before.
  pub create-lookup :
      s.heap p ≡ some d
      → d.kids ≡ some kids
      → s.next_ptr ≢ p
      → (t : Mem) × (((q : Ptr) × (find name kids ≡ some q)
            × (create p name mode s ≡ ok (eexist, t))
            × ((other : String) → lookup p other t ≡ ok (reply_of (find other kids), t)))
          ⊎ ((find name kids ≡ none)
              × (create p name mode s ≡ ok (done s.next_ptr, t))
              × ((other : String)
                  → lookup p other t
                    ≡ ok (
                      reply_of (if str_eq name other then some s.next_ptr else find other kids),
                      t,
                    ))))
  unfolding create add_new
  create-lookup at_p has_kids fresh = elim (Option-cases (find name kids)) [
    | inl absent ↦ (
      with_kid,
      inr (
        absent,
        found none absent
            ∙ bind_of (set_kid p name s.next_ptr) (λ u. pure (done s.next_ptr)) (made name mode s)
                (set_kid_of p s.next_ptr name (made name mode s) d kids still has_kids),
        λ other.
            lookup_of p with_kid other
              (ap (λ b. if b then some linked else (made name mode s).heap p) (eq_self p))
            ∙ ap (λ o. ok (reply_of o, with_kid)) (find-put name other s.next_ptr kids),
      ),
    )
    | inr (q, taken) ↦ (
      made name mode s,
      inl (
        q,
        taken,
        found (some q) taken,
        λ other.
            lookup_of p (made name mode s) other still
            ∙ ap (λ o. ok (reply_of (kid_of o other), made name mode s)) has_kids,
      ),
    )
  ]
    where
      other_cell : (s.next_ptr == p) ≡ false
      other_cell = ground arith

      still : (made name mode s).heap p ≡ some d
      still = rw other_cell at_p

      linked : Node
      linked = record d { kids = some (put name s.next_ptr kids) }

      with_kid : Mem
      with_kid = record (made name mode s) { heap = set_cell (made name mode s).heap p linked }

      found :
          (o : Option Ptr)
          → find name kids ≡ o
          → create p name mode s ≡ add_new p name s.next_ptr o (made name mode s)
      found o e =
          bind_of (init_node name mode) _ s (init_node_of name mode s)
          ∙ bind_of (node_at p) _ (made name mode s) (node_at_of p (made name mode s) still)
          ∙ ap (λ x. add_new p name s.next_ptr (kid_of x name) (made name mode s)) has_kids
          ∙ ap (λ x. add_new p name s.next_ptr x (made name mode s)) e
