-- ===== src/Dfs/Save/Round.antt =====
-- A round of Flusher of sylan/p2/dfs/fs.go: the tree is saved, and then the head that names it.
use cmsc818e.Prelude.{
  ℕ, ◌+◌, ◌<◌, String, some, true, false, ◌≡◌, refl, ap, sym, ◌∙◌, str_eq, str_eq_iff,
  if◌then◌else◌, ok, deref,
}
use cmsc818e.Dfs.Chunks.{Bytes}
use cmsc818e.Dfs.State.{Ptr, Node, Fs, node_at, lift, lock}
use cmsc818e.Dfs.State.Heap.{bind_of, node_at_of, lock_of, unlock_of}
use cmsc818e.Dfs.Wire.{Env, PbNode, PbHead, put_bytes}
use cmsc818e.Dfs.Save.{traversal_save, put_head, flush_round}
use cmsc818e.Dfs.Save.Progress.{Progress}
use cmsc818e.Dfs.Save.Tidy.{IsTidy}
use cmsc818e.Dfs.Save.Traversal.{traversal_save-Progress}

module _ {S : Type 0} (env : Env S)
    (get-put : (k j : String) (v : Bytes) (db : S)
      → env.db_get (env.db_put k v db) j ≡ (if str_eq k j then some v else env.db_get db j))
    (marshals : (order : ℕ) (m : PbNode) → (b : Bytes) × (env.marshal order m ≡ some b))
    (marshals_head : (h : PbHead) → (b : Bytes) × (env.marshal_head h ≡ some b)) where
  -- putHead stores the signature of the root, and the next inode.
  put_head-stores :
      (p : Ptr) (n : Node) (s : Fs S)
      → s.root ≡ some p
      → s.heap p ≡ some n
      → (b : Bytes) × (env.marshal_head (record { root = n.sig; next_ind = s.next_ind }) ≡ some b)
        × (put_head env s ≡ ok (tt, record s { db = env.db_put "head" b s.db }))
  unfolding put_head put_bytes
  put_head-stores p n s at_root at =
      let (b, coded) = marshals_head (record { root = n.sig; next_ind = s.next_ind }) in
      (
        b,
        coded,
        bind_of (lift (deref s.root)) _ s (ap (λ o. lift (deref o) s) at_root)
            ∙ bind_of (node_at p) _ s (node_at_of p s at)
            ∙ ap (λ o. put_bytes env "head" o s) coded,
      )

  module _ (rank : Ptr → ℕ) where
    -- Under the conditions of traversalSave, with the lock free, a round of Flusher returns with the lock free.
    -- The tree of the root has been saved, as traversalSave does it, and the store then has a head that names the
    -- signature of the root, which is not marked any more, and the next inode.
    pub flush_round-head :
        (fuel : ℕ) (p : Ptr) (n : Node) (s : Fs S)
        → IsTidy rank s
        → s.locked ≡ false
        → s.root ≡ some p
        → s.heap p ≡ some n
        → rank p < fuel
        → (t u : Fs S) × (c : Node) × (b : Bytes) × (flush_round env fuel s ≡ ok (tt, u))
          × Progress env rank (rank p + 1) (record s { locked = true }) t
          × (u ≡ record t { db = env.db_put "head" b t.db; locked = false })
          × (u.heap p ≡ some c)
          × (c.meta_dirty ≡ false)
          × (env.marshal_head (record { root = c.sig; next_ind = s.next_ind }) ≡ some b)
          × (env.db_get u.db "head" ≡ some b)
    unfolding flush_round
    flush_round-head fuel p n s tidy unlocked at_root at enough =
        let held : Fs S = record s { locked = true } in
        let tidy' : IsTidy rank held = record {
          loaded = tidy.loaded;
          names = tidy.names;
          kids = tidy.kids;
        } in
        let (t, saved, went, (c, at_c, clean)) =
          traversal_save-Progress env get-put marshals rank fuel p held n tidy' at enough in
        let root_t : t.root ≡ some p = ap (λ (x : Fs S). x.root) went.rest ∙ at_root in
        let ind_t : t.next_ind ≡ s.next_ind = ap (λ (x : Fs S). x.next_ind) went.rest in
        let (b, coded, stored) = put_head-stores p c t root_t at_c in
        let last : Fs S = record t { db = env.db_put "head" b t.db } in
        (
          t,
          record last { locked = false },
          c,
          b,
          bind_of lock _ s (lock_of s unlocked)
              ∙ bind_of (lift (deref s.root)) _ held (ap (λ o. lift (deref o) held) at_root)
              ∙ bind_of (traversal_save env fuel p) _ held saved
              ∙ bind_of (put_head env) _ t stored
              ∙ unlock_of last (ap (λ (x : Fs S). x.locked) went.rest),
          went,
          refl,
          at_c,
          clean,
          ap (λ i. env.marshal_head (record { root = c.sig; next_ind = i })) (sym ind_t) ∙ coded,
          get-put "head" "head" b t.db
              ∙ ap (λ x. if x then some b else env.db_get t.db "head")
                  ((str_eq_iff "head" "head").1 refl),
        )
