-- ===== src/Dfs/Save/Progress.antt =====
-- What traversalSave of sylan/p2/dfs/fs.go may do to the nodes in memory and to the store.
use native.Mathlib.Nat.{le_trans}
use cmsc818e.Prelude.{ℕ, ◌≤◌, String, some, true, false, ◌≡◌, ◌⊎◌, inl, inr, refl, ap, sym, ◌∙◌}
use cmsc818e.Prelude.Dict.{Dict, find}
use cmsc818e.Dfs.Chunks.{Bytes}
use cmsc818e.Dfs.State.{Ptr, Node, Fs}
use cmsc818e.Dfs.Wire.{Env, PbNode, sig_of}
use cmsc818e.Dfs.Handlers.{dict_or_empty}
use cmsc818e.Dfs.Save.{new_version}

-- The node that save_node leaves.
unfoldable pub renewed : {S : Type 0} → Env S → (order : ℕ) → Dict String → Node → Node
unfolding new_version
renewed env order sigs n = record (new_version env order sigs n) { meta_dirty = false }

abbrev pub CleanAt : {S : Type 0} → Fs S → Ptr → Type 0
CleanAt t k = (c : Node) × (t.heap k ≡ some c) × (c.meta_dirty ≡ false)

module _ {S : Type 0} (env : Env S) where
  -- Under the key the store has an encoding of a message, of which some encoding has the key as its
  -- SHA-1. The two need not be the same bytes.
  abbrev pub IsStored : S → String → Type 0
  IsStored db key =
      (m : PbNode) × (put_order sig_order : ℕ) × (b c : Bytes) × (env.db_get db key ≡ some b)
      × (env.marshal put_order m ≡ some b)
      × (env.marshal sig_order m ≡ some c)
      × (env.sha1 c ≡ key)

  -- A node whose signature is the SHA-1 of an encoding of it, and is in the store, with the signatures of its kids, none of
  -- which has changed since.
  pub record Saved (t : Fs S) (n : Node) : Type 0 where
    pub clean : n.meta_dirty ≡ false
    pub sig : (order : ℕ) × (n.sig ≡ sig_of env order n)
    pub stored : IsStored t.db n.sig
    pub kids :
        (name : String) (k : Ptr)
        → find name (dict_or_empty n.kids) ≡ some k
        → (c : Node) × (t.heap k ≡ some c)
          × (c.meta_dirty ≡ false)
          × (find name n.child_sigs ≡ some c.sig)

  -- A node that was marked, and has been saved.
  pub record Renewal (s t : Fs S) (q : Ptr) : Type 0 where
    pub old : Node
    pub sigs : Dict String
    pub order : ℕ
    pub was : s.heap q ≡ some old
    pub marked : old.meta_dirty ≡ true
    pub now : t.heap q ≡ some (renewed env order sigs old)
    pub saved : Saved t (renewed env order sigs old)

  -- Only marked nodes of a rank below r change, and each of them is saved.
  pub record Progress (rank : Ptr → ℕ) (r : ℕ) (s t : Fs S) : Type 0 where
    pub cell : (q : Ptr) → (t.heap q ≡ s.heap q) ⊎ Renewal s t q
    pub above : (q : Ptr) → r ≤ rank q → t.heap q ≡ s.heap q
    pub store : (key : String) → IsStored s.db key → IsStored t.db key
    pub rest : t ≡ record s { heap = t.heap; db = t.db; orders = t.orders }

  module _ (rank : Ptr → ℕ) where
    pub Progress-refl : (r : ℕ) (s : Fs S) → Progress rank r s s
    Progress-refl r s = record {
      cell = λ q. inl refl;
      above = λ q h. refl;
      store = λ key h. h;
      rest = refl;
    }

    pub Progress-weaken :
        (r r' : ℕ) (s t : Fs S) → r ≤ r' → Progress rank r s t → Progress rank r' s t
    Progress-weaken r r' s t le h = record {
      cell = h.cell;
      above = λ q high. h.above q (le_trans le high);
      store = h.store;
      rest = h.rest;
    }

    -- What is not marked stays as it is.
    pub clean-stays :
        (r : ℕ) (t u : Fs S) (k : Ptr) (c : Node)
        → Progress rank r t u
        → t.heap k ≡ some c
        → c.meta_dirty ≡ false
        → u.heap k ≡ some c
    clean-stays r t u k c h at clean = elim (h.cell k) [
      | inl same ↦ same ∙ at
      | inr new ↦
          let both : some new.old ≡ some c = sym new.was ∙ at in
          let one : new.old ≡ c = cc in
          let no : true ≡ false = sym new.marked ∙ ap (λ n. n.meta_dirty) one ∙ clean in cc
    ]

    pub Saved-stays : (r : ℕ) (t u : Fs S) (n : Node) → Progress rank r t u → Saved t n → Saved u n
    Saved-stays r t u n h saved = record {
      clean = saved.clean;
      sig = saved.sig;
      stored = h.store n.sig saved.stored;
      kids = λ name k e.
          let (c, at, clean, there) = saved.kids name k e in
          (c, clean-stays r t u k c h at clean, clean, there);
    }

    pub Progress-trans :
        (r : ℕ) (s t u : Fs S) → Progress rank r s t → Progress rank r t u → Progress rank r s u
    Progress-trans r s t u h k = record {
      cell = λ q. elim (h.cell q) [
        | inl same ↦ elim (k.cell q) [
          | inl same' ↦ inl (same' ∙ same)
          | inr new ↦ inr (record {
            old = new.old;
            sigs = new.sigs;
            order = new.order;
            was = sym same ∙ new.was;
            marked = new.marked;
            now = new.now;
            saved = new.saved;
          })
        ]
        | inr new ↦ inr (record {
          old = new.old;
          sigs = new.sigs;
          order = new.order;
          was = new.was;
          marked = new.marked;
          now = clean-stays r t u q _ k new.now new.saved.clean;
          saved = Saved-stays r t u _ k new.saved;
        })
      ];
      above = λ q high. k.above q high ∙ h.above q high;
      store = λ key there. k.store key (h.store key there);
      rest =
          k.rest
          ∙ ap (λ (x : Fs S). record x { heap = u.heap; db = u.db; orders = u.orders }) h.rest;
    }
