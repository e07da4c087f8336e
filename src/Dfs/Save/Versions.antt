-- ===== src/Dfs/Save/Versions.antt =====
-- getTimedVersion of sylan/p2/dfs/fs.go against the list of the versions in the store.
use mathlib.Core.Path.{subst}
use cmsc818e.Prelude.{
  ℕ, zero, suc, ◌+◌, ◌<◌, String, List, [], ◌∷◌, Option, none, some, false, Bool-cases, ◌≡◌, refl,
  ap, sym, ◌∙◌, inl, inr, arith, length, ltb, if◌then◌else◌, Result, ok,
}
use cmsc818e.Dfs.State.{Ptr, Node, Fs, Cmd, ◌>>=◌, pure, node_at, lift, set_cell}
use cmsc818e.Dfs.State.Heap.{bind_of, node_at_of, set_cell_self}
use cmsc818e.Dfs.Wire.{Env, decode_node, alloc_found, get_node}
use cmsc818e.Dfs.Save.{timed_version, get_timed_version}

module _ {S : Type 0} (env : Env S) where
  -- The versions of a node in the store, from the one before it back to the first.
  abbrev pub IsHistory : S → Node → List Node → Type 0
  IsHistory db n [] = decode_node env n.prev_sig (env.db_get db n.prev_sig) ≡ ok none
  IsHistory db n (m ∷ ms) =
      (decode_node env n.prev_sig (env.db_get db n.prev_sig) ≡ ok (some m)) × IsHistory db m ms

  -- The first version of a list that is before a time.
  abbrev pub latest_before : (tm : ℕ) → List Node → Option Node
  latest_before tm [] = none
  latest_before tm (n ∷ older) =
      let rest = latest_before tm older in if ltb n.attrs.mtime tm then some n else rest

  -- A pointer to a node, or nil.
  abbrev pub PointsTo : Fs S → Option Ptr → Option Node → Type 0
  PointsTo t none none = Unit {0}
  PointsTo t (some q) (some m) = t.heap q ≡ some m
  PointsTo t _ _ = ⊥

  get_node-found :
      (key : String) (s : Fs S) (m : Node)
      → decode_node env key (env.db_get s.db key) ≡ ok (some m)
      → get_node env key s
        ≡ ok (
          some s.next_ptr,
          record s { heap = set_cell s.heap s.next_ptr m; next_ptr = s.next_ptr + 1 },
        )
  unfolding get_node alloc_found
  get_node-found key s m h = ap (λ r. (lift r >>= alloc_found env) s) h

  get_node-absent :
      (key : String) (s : Fs S)
      → decode_node env key (env.db_get s.db key) ≡ ok none
      → get_node env key s ≡ ok (none, s)
  unfolding get_node alloc_found
  get_node-absent key s h = ap (λ r. (lift r >>= alloc_found env) s) h

  timed_version-nil : (fuel tm : ℕ) (s : Fs S) → timed_version env fuel tm none s ≡ ok (none, s)
  unfolding timed_version
  timed_version-nil zero tm s = refl
  timed_version-nil (suc fuel) tm s = refl

  -- What a search from p finds, among a list of versions.
  abbrev pub Finds : Fs S → List Node → (tm : ℕ) → (ran : Result (Option Ptr × Fs S)) → Type 0
  Finds s ns tm ran =
      (found : Option Ptr) × (t : Fs S) × (ran ≡ ok (found, t))
      × PointsTo t found (latest_before tm ns)
      × (t.db ≡ s.db)
      × (t.root ≡ s.root)

  Finds-late :
      (s s' : Fs S) (n : Node) (older : List Node) (tm : ℕ) (ran ran' : Result (Option Ptr × Fs S))
      → ltb n.attrs.mtime tm ≡ false
      → s'.db ≡ s.db
      → s'.root ≡ s.root
      → ran ≡ ran'
      → Finds s' older tm ran'
      → Finds s (n ∷ older) tm ran
  Finds-late s s' n older tm ran ran' late same_db same_root e (found, t, runs, points, db, root) =
      (
        found,
        t,
        e ∙ runs,
        subst (PointsTo t found) (sym (ap (λ b. if b then some n else latest_before tm older) late))
            points,
        db ∙ same_db,
        root ∙ same_root,
      )

  -- On fuel above the number of older versions, getTimedVersion returns the latest version of the node before the time, or nil
  -- where there is none, and changes neither the store nor the root.
  pub get_timed_version-latest :
      (fuel tm : ℕ) (p : Ptr) (s : Fs S) (n : Node) (older : List Node)
      → s.heap p ≡ some n
      → IsHistory s.db n older
      → length older < fuel
      → Finds s (n ∷ older) tm (get_timed_version env fuel tm p s)
  unfolding get_timed_version timed_version
  get_timed_version-latest zero tm p s n older at history enough = absurd (omega arith)
  get_timed_version-latest (suc fuel) tm p s n older at history enough =
      elim (Bool-cases (ltb n.attrs.mtime tm)) [
        | inl early ↦ (
          some p,
          s,
          read ∙ ap (λ b. (if b then pure (some p) else next) s) early,
          subst (PointsTo s (some p))
              (sym (ap (λ b. if b then some n else latest_before tm older) early)) at,
          refl,
          refl,
        )
        | inr late ↦
            search
              (λ q t m ms here rest few. get_timed_version-latest fuel tm q t m ms here rest few)
              older history enough late
              (read ∙ ap (λ b. (if b then pure (some p) else next) s) late)
      ]
    where
      next : Cmd S (Option Ptr)
      next = get_node env n.prev_sig >>= λ o. timed_version env fuel tm o

      read :
          timed_version env (suc fuel) tm (some p) s
          ≡ (if ltb n.attrs.mtime tm then pure (some p) else next) s
      read = bind_of (node_at p) _ s (node_at_of p s at)

      search :
          (later : (q : Ptr) (t : Fs S) (m : Node) (ms : List Node)
            → t.heap q ≡ some m
            → IsHistory t.db m ms
            → length ms < fuel
            → Finds t (m ∷ ms) tm (timed_version env fuel tm (some q) t))
          (ms : List Node)
          → IsHistory s.db n ms
          → length ms < suc fuel
          → ltb n.attrs.mtime tm ≡ false
          → timed_version env (suc fuel) tm (some p) s ≡ next s
          → Finds s (n ∷ ms) tm (timed_version env (suc fuel) tm (some p) s)
      search later [] none_left few late e =
          Finds-late s s n [] tm _ (ok (none, s)) late refl refl
            (e
              ∙ bind_of (get_node env n.prev_sig) _ s (get_node-absent n.prev_sig s none_left)
              ∙ timed_version-nil fuel tm s)
            (none, s, refl, tt, refl, refl)
      search later (m ∷ ms) (there, rest) few late e =
          let t : Fs S = record s {
            heap = set_cell s.heap s.next_ptr m;
            next_ptr = s.next_ptr + 1;
          } in
          Finds-late s t n (m ∷ ms) tm _ (timed_version env fuel tm (some s.next_ptr) t) late refl
            refl (e ∙ bind_of (get_node env n.prev_sig) _ s (get_node-found n.prev_sig s m there))
            (later s.next_ptr t m ms (set_cell_self s.heap s.next_ptr m) rest (omega arith))
