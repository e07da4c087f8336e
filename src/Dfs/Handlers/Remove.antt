-- ===== src/Dfs/Handlers/Remove.antt =====
-- What Remove of sylan/p2/dfs/fs.go does, and what Lookup finds after it.
use cmsc818e.Prelude.{
  String, ◌≡◌, ◌≢◌, ◌⊎◌, inl, inr, refl, ap, sym, ◌∙◌, Bool, true, false, not, ◌&&◌, Option, some,
  none, ok, Result, if◌then◌else◌, str_eq, Bool-cases, Option-cases,
}
use cmsc818e.Prelude.Dict.{Dict, find, delete, find-delete}
use mathlib.Core.Path.{subst}
use cmsc818e.Dfs.State.{
  Ptr, Node, Fs, Cmd, Reply, done, eperm, enoent, is_dir, ◌>>=◌, ◌>>◌, pure, lock, unlock, node_at,
  set_node, set_cell,
}
use cmsc818e.Dfs.State.Heap.{bind_of, lock_of, node_at_of, set_cell_self, set_cell_ne}
use cmsc818e.Dfs.Wire.{Env}
use cmsc818e.Dfs.Load.{ensure_loaded, update}
use cmsc818e.Dfs.Load.Marks.{MarkedCell, Above, here}
use cmsc818e.Dfs.Load.Update.{Saved, Updated, ensure_loaded_lem}
use cmsc818e.Dfs.Load.Grow.{IsHeap}
use cmsc818e.Dfs.Load.Shape.{set_cell-SameShape, Above-SameShape}
use cmsc818e.Dfs.Ops.{kid_of, without_kid, delete_kid}
use cmsc818e.Dfs.Handlers.{guard_write, reply_of, lookup, remove_kid, remove_found, remove}
use cmsc818e.Dfs.Handlers.Kids.{SavedAs, SavedAs-of}
use cmsc818e.Dfs.Handlers.Finish.{
  update_of, unlock_after, IsHeap-SameShape, IsHeap-Updated, IsHeap-unlocked,
}
use cmsc818e.Dfs.Handlers.Setattr.{set_cell-none}

-- Lookup in a loaded directory reads its map of kids.
pub lookup_of :
    {S : Type 0} (env : Env S) (s : Fs S) (p : Ptr) (name : String) {n : Node} {kids : Dict Ptr}
    → s.heap p ≡ some n
    → n.load_from_db ≡ false
    → n.kids ≡ some kids
    → lookup env p name s ≡ ok (reply_of (find name kids), s)
unfolding lookup
lookup_of env s p name at_p is_loaded has_kids =
    bind_of (ensure_loaded env p) _ s (ensure_loaded_lem env p s at_p is_loaded)
    ∙ bind_of (node_at p) (λ n. pure (reply_of (kid_of n.kids name))) s (node_at_of p s at_p)
    ∙ ap (λ o. ok (reply_of (kid_of o name), s)) has_kids

pub lookup_marked :
    {S : Type 0} (env : Env S) (s : Fs S) (p : Ptr) (name : String) (n : Node) {kids : Dict Ptr}
    → MarkedCell (some n) (s.heap p)
    → n.load_from_db ≡ false
    → n.kids ≡ some kids
    → lookup env p name s ≡ ok (reply_of (find name kids), s)
lookup_marked env s p name n (n', at_p, m) is_loaded has_kids =
    lookup_of env s p name at_p (ap (λ k. k.load_from_db) m.same ∙ is_loaded)
      (ap (λ k. k.kids) m.same ∙ has_kids)

-- The outcome of a successful Remove.
pub record Removed {S : Type 0} (env : Env S) (s t : Fs S) (p : Ptr) (d : Node) (kids : Dict Ptr)
    (name : String) : Type 0 where
  pub dir : SavedAs t p (record d { kids = some (delete name kids) })
  pub listing :
      (j : String)
      → lookup env p j t ≡ ok (reply_of (if str_eq name j then none else find j kids), t)
  pub above : (q : Ptr) → Above s.heap q p → Saved t q
  pub others : (q : Ptr) → p ≢ q → MarkedCell (s.heap q) (t.heap q)
  pub unlocked : t.locked ≡ false
  pub ok_heap : IsHeap t

-- What Remove answers, and the state that it leaves; `dir` says that the request is for a directory.
abbrev pub RemoveOutcome :
    {S : Type 0}
    → Env S
    → Fs S
    → Ptr
    → Node
    → Dict Ptr
    → String
    → (dir : Bool) → Result (Reply (Unit {0}) × Fs S)
    → Type 0
RemoveOutcome {S} env s p d kids name dir res =
    ((s.read_only ≡ true) × (res ≡ ok (eperm, s)))
    ⊎ ((s.read_only ≡ false) × (find name kids ≡ none) × (res ≡ ok (enoent, s)))
    ⊎ ((q : Ptr) × (k : Node) × (find name kids ≡ some q)
        × (s.heap q ≡ some k)
        × (s.read_only ≡ false)
        × (((is_dir k.attrs.mode && not dir ≡ true) × (res ≡ ok (eperm, s)))
            ⊎ ((is_dir k.attrs.mode && not dir ≡ false)
                × (t : Fs S) × (res ≡ ok (done tt, t))
                × Removed env s t p d kids name)))

module _ {S : Type 0} (env : Env S) (s : Fs S) (p : Ptr) (d : Node) (kids : Dict Ptr)
    (name : String) (at_p : s.heap p ≡ some d) (is_loaded : d.load_from_db ≡ false)
    (has_kids : d.kids ≡ some kids) (free : s.locked ≡ false) (ok_heap : IsHeap s) where
  abbrev without : Node
  without = record d { kids = some (delete name kids) }

  abbrev locked : Fs S
  locked = record s { locked = true }

  abbrev cut : Fs S
  cut = record locked { heap = set_cell s.heap p without }

  cut-IsHeap : IsHeap cut
  cut-IsHeap =
      IsHeap-SameShape s cut refl (set_cell-SameShape s.heap p d without at_p refl refl)
        (λ q e. set_cell-none s.heap p q d without at_p e) ok_heap

  delete_kid-cut : delete_kid p name locked ≡ ok (tt, cut)
  unfolding delete_kid
  delete_kid-cut =
      bind_of (node_at p) (λ n. set_node p (record n { kids = without_kid n.kids name })) locked
        (node_at_of p locked at_p)
      ∙ ap (λ o. set_node p (record d { kids = without_kid o name }) locked) has_kids

  Updated-Removed :
      (t : Fs S) → Updated p cut t → Removed env s (record t { locked = false }) p d kids name
  Updated-Removed t u =
      let shape = set_cell-SameShape s.heap p d without at_p refl refl in
      let cut_at = set_cell_self s.heap p without in
      let dir = SavedAs-of cut t p without cut_at (u.cells p) (u.to_save p (here refl)) in
      record {
        dir = dir;
        listing = λ j.
            lookup_marked env (record t { locked = false }) p j without (dir.0, dir.1, dir.2)
              is_loaded refl
            ∙ ap (λ o. ok (reply_of o, record t { locked = false })) (find-delete name j kids);
        above = λ q a. u.to_save q (Above-SameShape s.heap cut.heap shape a);
        others = λ q other.
            subst (λ o. MarkedCell o (t.heap q)) (set_cell_ne s.heap p q without other) (u.cells q);
        unlocked = refl;
        ok_heap = IsHeap-unlocked t (IsHeap-Updated p cut t u cut-IsHeap);
      }

  remove_kid-Removed :
      (t : Fs S) × (remove_kid env p name false s ≡ ok (done tt, t)) × Removed env s t p d kids name
  unfolding remove_kid
  remove_kid-Removed =
      let (t, ran, u) = update_of env p cut (set_cell_self s.heap p without) is_loaded cut-IsHeap in
      let last : Cmd S (Reply (Unit {0})) = pure (done tt) in
      let tail : Cmd S (Reply (Unit {0})) = update env (some p) >> (unlock >> last) in
      (
        record t { locked = false },
        bind_of lock (λ _. (ensure_loaded env p >> (delete_kid p name >> tail))) s (lock_of s free)
            ∙ bind_of (ensure_loaded env p) (λ _. (delete_kid p name >> tail)) locked
                (ensure_loaded_lem env p locked at_p is_loaded)
            ∙ bind_of (delete_kid p name) (λ _. tail) locked delete_kid-cut
            ∙ unlock_after env p last cut t refl ran u,
        Updated-Removed t u,
      )

  remove_loaded :
      (dir : Bool)
      → ((q : Ptr) → find name kids ≡ some q → (k : Node) × (s.heap q ≡ some k))
      → RemoveOutcome env s p d kids name dir (remove env p name dir s)
  unfolding remove remove_found remove_kid
  remove_loaded dir there = split s.read_only refl
    where
      body : Cmd S (Reply (Unit {0}))
      body = node_at p >>= λ n. remove_found env p name dir (kid_of n.kids name)

      found_of : (o : Option Ptr) → find name kids ≡ o → body s ≡ remove_found env p name dir o s
      found_of o e =
          bind_of (node_at p) (λ n. remove_found env p name dir (kid_of n.kids name)) s
            (node_at_of p s at_p)
          ∙ ap (λ x. remove_found env p name dir x s) (ap (λ x. kid_of x name) has_kids ∙ e)

      split :
          (b : Bool)
          → s.read_only ≡ b
          → RemoveOutcome env s p d kids name dir (guard_write b body s)
      split true e = inl (e, refl)
      split false e = elim (Option-cases (find name kids)) [
        | inl absent ↦ inr (inl (e, absent, found_of none absent))
        | inr (q, taken) ↦
            let (k, at_q) = there q taken in
            let kid =
              found_of (some q) taken
              ∙ bind_of (node_at q) (λ x. remove_kid env p name (is_dir x.attrs.mode && not dir)) s
                  (node_at_of q s at_q) in
            elim (Bool-cases (is_dir k.attrs.mode && not dir)) [
              | inl refused ↦ inr (
                  inr (
                    q,
                    k,
                    taken,
                    at_q,
                    e,
                    inl (refused, kid ∙ ap (λ b. remove_kid env p name b s) refused),
                  ))
              | inr allowed ↦
                  let (t, ran, all) = remove_kid-Removed in
                  inr (
                    inr (
                      q,
                      k,
                      taken,
                      at_q,
                      e,
                      inr (
                        allowed,
                        t,
                        kid ∙ ap (λ b. remove_kid env p name b s) allowed ∙ ran,
                        all,
                      ),
                    ))
            ]
      ]

-- The outcome of Remove in a directory whose map of kids may be nil.
abbrev pub RemoveReply :
    {S : Type 0}
    → Env S
    → Fs S
    → Ptr
    → Node
    → String
    → (dir : Bool) → Result (Reply (Unit {0}) × Fs S)
    → Type 0
RemoveReply {S} env s p d name dir res =
    ((d.kids ≡ none) × (s.read_only ≡ true) × (res ≡ ok (eperm, s)))
    ⊎ ((d.kids ≡ none) × (s.read_only ≡ false) × (res ≡ ok (enoent, s)))
    ⊎ ((kids : Dict Ptr) × (d.kids ≡ some kids)
        × (d.load_from_db ≡ false)
        × RemoveOutcome env s p d kids name dir res)

-- With the lock free, for a node that has no map of kids while it is not loaded, as getNode makes it:
-- Remove changes nothing and answers EPERM on a read-only file system, ENOENT for a name that is not in
-- the map of kids, also where the map is nil since the node is not loaded or is no directory, and EPERM
-- for a directory that the request does not call one. Else it returns, and Lookup finds what it found
-- before but for this name; the directory and all above it will be saved; no other node changes but for
-- its marks. A directory is removed whether it is empty or not.
pub remove_lem :
    {S : Type 0} (env : Env S) (s : Fs S) (p : Ptr) (d : Node) (name : String) (dir : Bool)
    → s.heap p ≡ some d
    → (d.load_from_db ≡ true → d.kids ≡ none)
    → s.locked ≡ false
    → IsHeap s
    → ((kids : Dict Ptr) (q : Ptr)
        → d.kids ≡ some kids
        → find name kids ≡ some q
        → (k : Node) × (s.heap q ≡ some k))
    → RemoveReply env s p d name dir (remove env p name dir s)
unfolding remove remove_found
remove_lem env s p d name dir at_p unloaded free ok_heap there = elim (Option-cases d.kids) [
  | inl nil ↦
      let body : Cmd _ (Reply (Unit {0})) =
        node_at p >>= λ n. remove_found env p name dir (kid_of n.kids name) in
      let missing : body s ≡ ok (enoent, s) =
        bind_of (node_at p) (λ n. remove_found env p name dir (kid_of n.kids name)) s
          (node_at_of p s at_p)
        ∙ ap (λ o. remove_found env p name dir (kid_of o name) s) nil in
      elim (Bool-cases s.read_only) [
        | inl e ↦ inl (nil, e, ap (λ b. guard_write b body s) e)
        | inr e ↦ inr (inl (nil, e, ap (λ b. guard_write b body s) e ∙ missing))
      ]
  | inr (kids, has_kids) ↦ elim (Bool-cases d.load_from_db) [
    | inl raw ↦ let nil : none ≡ some kids = sym (unloaded raw) ∙ has_kids in cc
    | inr loaded ↦ inr (
        inr (
          kids,
          has_kids,
          loaded,
          remove_loaded env s p d kids name at_p loaded has_kids free ok_heap dir
              (λ q e. there kids q has_kids e),
        ))
  ]
]
