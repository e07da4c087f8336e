-- ===== src/Memfs/Remove.antt =====
-- Remove of the in-memory file system of sylan/p1/dfs.go, and Lookup after it.
use cmsc818e.Prelude.{
  ℕ, String, Option, none, some, Bool, true, false, not, ◌&&◌, ◌==◌, if◌then◌else◌, Option-cases,
  Bool-cases, ◌≡◌, ◌⊎◌, inl, inr, ap, ◌∙◌, arith, ok, deref, str_eq,
}
use cmsc818e.Prelude.Dict.{Dict, find, delete, find-delete}
use cmsc818e.Prelude.Command.{bind_of, lift, pure}
use cmsc818e.Dfs.State.{Ptr, is_dir, done, eperm, enoent}
use cmsc818e.Dfs.Ops.{kid_of, without_kid}
use cmsc818e.Dfs.Handlers.{reply_of}
use cmsc818e.Memfs.{
  Node, Mem, node_at, set_node, set_cell, lookup, delete_kid, remove, remove_found, remove_kid,
}

pub eq_self : (p : ℕ) → (p == p) ≡ true
eq_self p = ground arith

pub node_at_of : (p : Ptr) (s : Mem) {n : Node} → s.heap p ≡ some n → node_at p s ≡ ok (n, s)
node_at_of p s h = ap (λ o. lift (deref o) s) h

pub lookup_of :
    (p : Ptr) (s : Mem) (name : String) {n : Node}
    → s.heap p ≡ some n
    → lookup p name s ≡ ok (reply_of (kid_of n.kids name), s)
unfolding lookup
lookup_of p s name h = bind_of (node_at p) _ s (node_at_of p s h)

module _ (s : Mem) (p : Ptr) (d : Node) (kids : Dict Ptr) (name : String) where
  abbrev pub removed : Mem
  removed = record s { heap = set_cell s.heap p (record d { kids = some (delete name kids) }) }

  -- In a directory with the kids `kids`, Remove answers ENOENT for a name that is not there and EPERM for
  -- a directory that the request does not call one, and changes nothing then. Else it returns, changes the
  -- kids of the directory only, and no count of links, and Lookup finds in it what it found before but
  -- for this name.
  pub remove-lookup :
      (dir : Bool)
      → s.heap p ≡ some d
      → d.kids ≡ some kids
      → ((q : Ptr) → find name kids ≡ some q → (k : Node) × (s.heap q ≡ some k))
      → ((find name kids ≡ none) × (remove p name dir s ≡ ok (enoent, s)))
        ⊎ ((q : Ptr) × (k : Node) × (find name kids ≡ some q)
            × (s.heap q ≡ some k)
            × (((is_dir k.attrs.mode && not dir ≡ true) × (remove p name dir s ≡ ok (eperm, s)))
                ⊎ ((is_dir k.attrs.mode && not dir ≡ false)
                    × (remove p name dir s ≡ ok (done tt, removed))
                    × ((other : String)
                        → lookup p other removed
                          ≡ ok (
                            reply_of (if str_eq name other then none else find other kids),
                            removed,
                          )))))
  unfolding remove remove_found remove_kid delete_kid
  remove-lookup dir at_p has_kids there = elim (Option-cases (find name kids)) [
    | inl absent ↦ inl (absent, found none absent)
    | inr (q, taken) ↦
        let (k, at_q) = there q taken in
        let kid =
          found (some q) taken
          ∙ bind_of (node_at q) (λ x. remove_kid p name (is_dir x.attrs.mode && not dir)) s
              (node_at_of q s at_q) in
        inr (
          q,
          k,
          taken,
          at_q,
          elim (Bool-cases (is_dir k.attrs.mode && not dir)) [
            | inl refused ↦ inl (refused, kid ∙ ap (λ b. remove_kid p name b s) refused)
            | inr allowed ↦
                inr (allowed, kid ∙ ap (λ b. remove_kid p name b s) allowed ∙ gone, after)
          ],
        )
  ]
    where
      found :
          (o : Option Ptr) → find name kids ≡ o → remove p name dir s ≡ remove_found p name dir o s
      found o e =
          bind_of (node_at p) (λ n. remove_found p name dir (kid_of n.kids name)) s
            (node_at_of p s at_p)
          ∙ ap (λ x. remove_found p name dir (kid_of x name) s) has_kids
          ∙ ap (λ x. remove_found p name dir x s) e

      gone : remove_kid p name false s ≡ ok (done tt, removed)
      gone =
          bind_of (delete_kid p name) (λ u. pure (done tt)) s
            (bind_of (node_at p) (λ n. set_node p (record n { kids = without_kid n.kids name })) s
              (node_at_of p s at_p))
          ∙ ap
              (λ o. ok (
                done tt,
                record s { heap = set_cell s.heap p (record d { kids = without_kid o name }) },
              ))
              has_kids

      after :
          (other : String)
          → lookup p other removed
            ≡ ok (reply_of (if str_eq name other then none else find other kids), removed)
      after other =
          lookup_of p removed other (
            ap (λ b. if b then some (record d { kids = some (delete name kids) }) else s.heap p)
              (eq_self p))
          ∙ ap (λ o. ok (reply_of o, removed)) (find-delete name other kids)
