-- ===== src/Dfs/Save/Traversal.antt =====
-- traversalSave of sylan/p2/dfs/fs.go, where the kids of a directory have a rank below its own.
use mathlib.Core.Path.{subst}
use cmsc818e.Prelude.{
  ℕ, zero, suc, ◌+◌, ◌<◌, ◌==◌, ==_iff, String, [], ◌∷◌, none, some, true, false, Bool-cases, ◌≡◌,
  ◌⊎◌, inl, inr, refl, ap, sym, ◌∙◌, arith, All, str_eq, str_eq_iff, if◌then◌else◌, Result, ok,
}
use cmsc818e.Prelude.Dict.{Dict}
use cmsc818e.Dfs.Chunks.{Bytes}
use cmsc818e.Dfs.State.{Ptr, Node, Fs, Cmd, node_at, set_cell, set_node}
use cmsc818e.Dfs.State.Heap.{bind_of, node_at_of, set_cell_self}
use cmsc818e.Dfs.Wire.{
  Env, PbNode, sig_of, sig_of_bytes, export_node, put_node, put_bytes, next_order,
}
use cmsc818e.Dfs.Load.{ensure_loaded, load_if}
use cmsc818e.Dfs.Handlers.{dict_or_empty}
use cmsc818e.Dfs.Save.{collect_sigs, new_version, save_node, save_each, save_if, traversal_save}
use cmsc818e.Dfs.Save.Progress.{
  CleanAt, IsStored, Saved, Renewal, Progress, Progress-refl, Progress-weaken, Progress-trans,
  clean-stays, renewed,
}
use cmsc818e.Dfs.Save.Tidy.{
  IsMap, IsTidy, KidsBelow, IsTidy-stays, KidsBelow-stays, collect_sigs-SigsOf, rank-find,
}

module _ {S : Type 0} (env : Env S)
    (get-put : (k j : String) (v : Bytes) (db : S)
      → env.db_get (env.db_put k v db) j ≡ (if str_eq k j then some v else env.db_get db j))
    (marshals : (order : ℕ) (m : PbNode) → (b : Bytes) × (env.marshal order m ≡ some b)) where
  -- An encoding of a message that is put under the SHA-1 of one is there, and each key keeps such.
  IsStored-put :
      (m : PbNode) (put_order sig_order : ℕ) (b c : Bytes) (db : S) (k key : String)
      → env.marshal put_order m ≡ some b
      → env.marshal sig_order m ≡ some c
      → env.sha1 c ≡ k
      → ((k ≡ key) ⊎ IsStored env db key)
      → IsStored env (env.db_put k b db) key
  IsStored-put m po so b c db k key coded signed hash h = elim (Bool-cases (str_eq k key)) [
    | inl same ↦ (
      m,
      po,
      so,
      b,
      c,
      get-put k key b db ∙ rw same refl,
      coded,
      signed,
      hash ∙ (str_eq_iff k key).0 same,
    )
    | inr differs ↦ elim h [
      | inl e ↦ let yes = (str_eq_iff k key).1 e in cc
      | inr (m', po', so', b', c', at, coded', signed', hash') ↦
          (m', po', so', b', c', get-put k key b db ∙ rw differs at, coded', signed', hash')
    ]
  ]

  module _ (rank : Ptr → ℕ) where
    abbrev after_save : Fs S → Ptr → Dict String → Node → Bytes → Fs S
    after_save t p sigs n b = record t {
      heap = set_cell t.heap p (renewed env (t.orders 0) sigs n);
      db = env.db_put (new_version env (t.orders 0) sigs n).sig b t.db;
      orders = λ i. t.orders (i + 1 + 1);
    }

    -- The last part of traversalSave, once the kids are saved.
    save_node-Progress :
        (p : Ptr) (t : Fs S) (n : Node)
        → t.heap p ≡ some n
        → n.meta_dirty ≡ true
        → IsMap (dict_or_empty n.kids)
        → KidsBelow t rank (rank p) (dict_or_empty n.kids)
        → All (λ e. CleanAt t e.1) (dict_or_empty n.kids)
        → (u : Fs S) × (save_node env p t ≡ ok (tt, u))
          × Progress env rank (rank p + 1) t u
          × CleanAt u p
    unfolding save_node renewed sig_of next_order put_node export_node
    save_node-Progress p t n at dirty distinct below clean =
        let (sigs, collected, has) =
          collect_sigs-SigsOf (dict_or_empty n.kids) [] t distinct clean in
        let n' = new_version env (t.orders 0) sigs n in
        let (c, signed) = marshals (t.orders 0) (export_node n') in
        let (b, coded) = marshals (t.orders 1) (export_node n') in
        let u = after_save t p sigs n b in
        let key : n'.sig ≡ env.sha1 c = ap (sig_of_bytes env) signed in
        let new = renewed env (t.orders 0) sigs n in
        let drawn : Fs S = record t { orders = λ i. t.orders (i + 1) } in
        let twice : Fs S = record t { orders = λ i. t.orders (i + 1 + 1) } in
        let stored : put_node env n' drawn
            ≡ ok (tt, record twice { db = env.db_put n'.sig b t.db }) =
          ap (λ o. put_bytes env n'.sig o twice) coded in
        let puts : (k : String) → ((n'.sig ≡ k) ⊎ IsStored env t.db k) → IsStored env u.db k = λ k.
          IsStored-put (export_node n') (t.orders 1) (t.orders 0) b c t.db n'.sig k coded signed
            (sym key) in
        let apart : (q : Ptr) → (p == q) ≡ false → u.heap q ≡ t.heap q =
          λ q e. ap (λ x. if x then some new else t.heap q) e in
        let low : (q : Ptr) → rank q < rank p → (p == q) ≡ false = λ q h.
          elim (Bool-cases (p == q)) [
            | inl e ↦
                let same : rank p ≡ rank q = ap rank ((==_iff p q).0 e) in absurd (omega arith)
            | inr e ↦ e
          ] in
        let saved : Saved env u new = record {
          clean = refl;
          sig = (t.orders 0, refl);
          stored = puts n'.sig (inl refl);
          kids = λ name k e. elim (has name) [
            | inl (absent, old) ↦ let no : none ≡ some k = sym absent ∙ e in cc
            | inr (k', c, found, there, clean_c, sig) ↦
                let both : some k' ≡ some k = sym found ∙ e in
                let one : k' ≡ k = cc in
                let rank_k = rank-find t rank (rank p) (dict_or_empty n.kids) name k below e in
                (c, apart k (low k rank_k) ∙ ap t.heap (sym one) ∙ there, clean_c, sig)
          ];
        } in
        (
          u,
          bind_of (node_at p) _ t (node_at_of p t at)
              ∙ bind_of (collect_sigs (dict_or_empty n.kids) []) _ t collected
              ∙ bind_of (put_node env n') (λ x. set_node p new) drawn stored,
          record {
            cell = λ q. elim (Bool-cases (p == q)) [
              | inl e ↦
                  subst (λ x. (u.heap x ≡ t.heap x) ⊎ Renewal env t u x) ((==_iff p q).0 e)
                    (inr (record {
                      old = n;
                      sigs = sigs;
                      order = t.orders 0;
                      was = at;
                      marked = dirty;
                      now = set_cell_self t.heap p new;
                      saved = saved;
                    }))
              | inr e ↦ inl (apart q e)
            ];
            above = λ q high. elim (Bool-cases (p == q)) [
              | inl e ↦
                  let same : rank p ≡ rank q = ap rank ((==_iff p q).0 e) in absurd (omega arith)
              | inr e ↦ apart q e
            ];
            store = λ k there. puts k (inr there);
            rest = refl;
          },
          (new, set_cell_self t.heap p new, refl),
        )

    -- What a save of p brings about, when it has returned.
    abbrev pub Saves : Fs S → Ptr → (ran : Result (Unit {0} × Fs S)) → Type 0
    Saves s p ran =
        (t : Fs S) × (ran ≡ ok (tt, t)) × Progress env rank (rank p + 1) s t × CleanAt t p

    save_each-Progress :
        (save : Ptr → Cmd S (Unit {0})) (r : ℕ)
        → ((s : Fs S) (q : Ptr) (n : Node)
            → IsTidy rank s
            → s.heap q ≡ some n
            → rank q < r
            → Saves s q (save q s))
        → (kids : Dict Ptr) (s : Fs S) → IsTidy rank s
        → KidsBelow s rank r kids
        → (t : Fs S) × (save_each save kids s ≡ ok (tt, t))
          × Progress env rank r s t
          × All (λ e. CleanAt t e.1) kids
    unfolding save_each
    save_each-Progress save r saves [] s tidy below = (s, refl, Progress-refl env rank r s, tt)
    save_each-Progress save r saves ((name, q) ∷ kids) s tidy (((c, at), low), below) =
        let (t, saved, first, clean) = saves s q c tidy at low in
        let first' = Progress-weaken env rank (rank q + 1) r s t (omega arith) first in
        let (u, ran, others, all_clean) =
          save_each-Progress save r saves kids t (IsTidy-stays env rank r s t first' tidy)
            (KidsBelow-stays env rank r s t r kids first' below) in
        let (d, at_d, low_d) = clean in
        (
          u,
          bind_of (save q) (λ x. save_each save kids) s saved ∙ ran,
          Progress-trans env rank r s t u first' others,
          ((d, clean-stays env rank r t u q d others at_d low_d, low_d), all_clean),
        )

    -- A marked node: its kids are saved, and then the node.
    save_marked :
        (save : Ptr → Cmd S (Unit {0})) (p : Ptr) (s : Fs S) (n : Node)
        → ((s : Fs S) (q : Ptr) (n : Node)
            → IsTidy rank s
            → s.heap q ≡ some n
            → rank q < rank p
            → Saves s q (save q s))
        → IsTidy rank s
        → s.heap p ≡ some n
        → n.meta_dirty ≡ true
        → Saves s p (save_if env save p true s)
    unfolding save_if ensure_loaded load_if
    save_marked save p s n saves tidy at dirty =
        let kids = dict_or_empty n.kids in
        let (t, ran, below, clean) =
          save_each-Progress save (rank p) saves kids s tidy (tidy.kids p n at) in
        let at_t : t.heap p ≡ some n = below.above p (omega arith) ∙ at in
        let tidy_t = IsTidy-stays env rank (rank p) s t below tidy in
        let (u, saved, last, clean_p) =
          save_node-Progress p t n at_t dirty (tidy_t.names p n at_t) (tidy_t.kids p n at_t)
            clean in
        let loaded : ensure_loaded env p s ≡ ok (tt, s) =
          bind_of (node_at p) _ s (node_at_of p s at)
          ∙ ap (λ b. load_if env p b s) (tidy.loaded p n at dirty) in
        (
          u,
          bind_of (ensure_loaded env p) _ s loaded
              ∙ bind_of (node_at p) _ s (node_at_of p s at)
              ∙ bind_of (save_each save kids) (λ x. save_node env p) s ran
              ∙ saved,
          Progress-trans env rank (rank p + 1) s t u
              (Progress-weaken env rank (rank p) (rank p + 1) s t (omega arith) below) last,
          clean_p,
        )

    -- Where a get returns the last value put and nodes marshal: on a file system in memory whose marked nodes are
    -- loaded and whose kids have a lower rank than their directory, traversalSave of a node returns, on fuel
    -- above its rank. The node is then not marked. Each node is as before, or was marked and is saved: its
    -- signature is the SHA-1 of one encoding of its new version, whose previous signature is the old one,
    -- and which has the signatures of all its kids, which are saved too or were not marked. Under the
    -- signature the store has an encoding of a message, one encoding of which has that SHA-1, but the order
    -- of a map in it may differ. A key that had such an encoding before still has one, and nothing else
    -- changes.
    pub traversal_save-Progress :
        (fuel : ℕ) (p : Ptr) (s : Fs S) (n : Node)
        → IsTidy rank s
        → s.heap p ≡ some n
        → rank p < fuel
        → Saves s p (traversal_save env fuel p s)
    unfolding traversal_save
    traversal_save-Progress zero p s n tidy at enough = absurd (omega arith)
    traversal_save-Progress (suc fuel) p s n tidy at enough = elim (Bool-cases n.meta_dirty) [
      | inl dirty ↦
          let (t, ran, went, clean_p) =
            save_marked (traversal_save env fuel) p s n
              (λ s' q m tidy' at' low. traversal_save-Progress fuel q s' m tidy' at' (omega arith))
              tidy at dirty in
          (
            t,
            bind_of (node_at p) _ s (node_at_of p s at)
                ∙ ap (λ b. save_if env (traversal_save env fuel) p b s) dirty
                ∙ ran,
            went,
            clean_p,
          )
      | inr clean ↦ (
        s,
        bind_of (node_at p) _ s (node_at_of p s at)
            ∙ ap (λ b. save_if env (traversal_save env fuel) p b s) clean,
        Progress-refl env rank (rank p + 1) s,
        (n, at, clean),
      )
    ]
