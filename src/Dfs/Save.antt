-- ===== src/Dfs/Save.antt =====
-- Metadata in the store: traversalSave, Flusher, getHead, putHead, getTimedVersion, getPathNode and what
-- Init sets up, of sylan/p2/dfs/fs.go.
pub mod Progress
pub mod Tidy
pub mod Traversal
pub mod Round
pub mod Versions
mod Examples
use cmsc818e.Prelude.{
  ℕ, zero, suc, String, ◌+◌, List, [], ◌∷◌, Option, none, some, Bool, true, false, ◌&&◌,
  if◌then◌else◌, ltb, str_eq, ok, blocked, deref,
}
use cmsc818e.Prelude.Dict.{Dict, find, put}
use cmsc818e.Dfs.Chunks.{Bytes, wrap}
use cmsc818e.Dfs.State.{
  Ptr, Node, Cmd, or_dir, pure, ◌>>=◌, ◌>>◌, get, lift, node_at, set_node, lock, unlock,
}
use cmsc818e.Dfs.Wire.{
  Env, PbHead, text_or_empty, sig_of, next_order, get_node, get_existing, put_bytes, put_node,
}
use cmsc818e.Dfs.Load.{ensure_loaded, load_all_data}
use cmsc818e.Dfs.Ops.{init_node}
use cmsc818e.Dfs.Handlers.{dict_or_empty}

module _ {S : Type 0} where
  -- for _, kid := range n.kids { traversalSave(kid) }
  unfoldable pub save_each : (save : Ptr → Cmd S (Unit {0})) → Dict Ptr → Cmd S (Unit {0})
  save_each save [] = pure tt
  save_each save ((name, q) ∷ kids) = do save q; save_each save kids

  -- for kidName, kid := range n.kids { n.ChildSigs[kidName] = kid.sig }
  unfoldable pub collect_sigs : Dict Ptr → Dict String → Cmd S (Dict String)
  collect_sigs [] sigs = pure sigs
  collect_sigs ((name, q) ∷ kids) sigs = do
    kid ← node_at q
    collect_sigs kids (put name kid.sig sigs)

abbrev pub is_none : Option ℕ → Bool
is_none none = true
is_none (some t) = false

-- The components of a path that is the empty string.
abbrev pub is_empty_path : List String → Bool
is_empty_path [] = true
is_empty_path (name ∷ []) = str_eq name ""
is_empty_path (name ∷ next ∷ rest) = false

module _ {S : Type 0} (env : Env S) where
  -- The node with its new signature; Version is the int's 64 bits.
  unfoldable pub new_version : (order : ℕ) → Dict String → Node → Node
  new_version order sigs n =
      let n' : Node = record n {
        child_sigs = sigs;
        prev_sig = n.sig;
        version = wrap (n.version + 1);
      } in
      record n' { sig = sig_of env order n' }

  unfoldable pub save_node : Ptr → Cmd S (Unit {0})
  unfolding new_version
  save_node p = do
    n ← node_at p
    sigs ← collect_sigs (dict_or_empty n.kids) []
    order ← next_order env
    let n' = new_version order sigs n
    put_node env n'
    set_node p (record n' { meta_dirty = false })

  unfoldable pub save_if :
      (save : Ptr → Cmd S (Unit {0})) → Ptr → (meta_dirty : Bool) → Cmd S (Unit {0})
  save_if save p false = pure tt
  save_if save p true = do
    ensure_loaded env p
    n ← node_at p
    save_each save (dict_or_empty n.kids)
    save_node p

  -- On fuel, the depth of the tree.
  unfoldable pub traversal_save : ℕ → Ptr → Cmd S (Unit {0})
  unfolding save_if
  traversal_save zero p = λ s. blocked
  traversal_save (suc fuel) p = do n ← node_at p; save_if (traversal_save fuel) p n.meta_dirty

  unfoldable pub put_head : Cmd S (Unit {0})
  put_head = do
    s ← get
    p ← lift (deref s.root)
    root ← node_at p
    put_bytes env "head" (env.marshal_head (record { root = root.sig; next_ind = s.next_ind }))

  -- One round of the loop in Flusher.
  unfoldable pub flush_round : ℕ → Cmd S (Unit {0})
  flush_round fuel = do
    lock
    s ← get
    p ← lift (deref s.root)
    traversal_save fuel p
    put_head
    unlock

  unfoldable pub decode_head : Option Bytes → Option PbHead
  decode_head none = none
  decode_head (some bytes) = env.unmarshal_head bytes

  unfoldable pub load_head : Option PbHead → Cmd S (Option Ptr × ℕ)
  load_head none = pure (none, 0)
  load_head (some h) = do
    root ← get_existing env h.root
    load_all_data env root
    pure (some root, h.next_ind)

  unfoldable pub get_head : Cmd S (Option Ptr × ℕ)
  unfolding decode_head load_head
  get_head = do s ← get; load_head (decode_head (env.db_get s.db "head"))

  -- The last version before `tm`, from the one at p or none on; on fuel, the number of versions.
  unfoldable pub timed_version : ℕ → (tm : ℕ) → Option Ptr → Cmd S (Option Ptr)
  timed_version fuel tm none = pure none
  timed_version zero tm (some p) = λ s. blocked
  timed_version (suc fuel) tm (some p) = do
    n ← node_at p
    (if ltb n.attrs.mtime tm
        then pure (some p)
        else do older ← get_node env n.prev_sig; timed_version fuel tm older)

  unfoldable pub get_timed_version : ℕ → (tm : ℕ) → Ptr → Cmd S (Option Ptr)
  unfolding timed_version
  get_timed_version fuel tm p = timed_version fuel tm (some p)

  -- A path is the list of its components, as strings.Split gives it.
  unfoldable pub get_path_node : Option Ptr → List String → Cmd S (Option Ptr)
  get_path_node none path = pure none
  get_path_node (some p) [] = pure (some p)
  get_path_node (some p) (name ∷ rest) = if is_empty_path (name ∷ rest) then pure (some p) else do
    n ← node_at p
    found ← get_node env (text_or_empty (find name n.child_sigs))
    get_path_node found rest

  -- Init: the archived root, if there is one before the time that was asked for.
  unfoldable pub choose_root : Option Ptr → Cmd S (Unit {0})
  choose_root none s = ok (tt, s)
  choose_root (some p) s = ok (tt, record s { root = some p; read_only = true })

  unfoldable pub archive : ℕ → Option ℕ → Ptr → Cmd S (Unit {0})
  archive fuel none p = pure tt
  archive fuel (some tm) p = do found ← get_timed_version fuel tm p; choose_root found

  unfoldable pub use_head : ℕ → Option ℕ → Option Ptr → ℕ → Cmd S (Unit {0})
  unfolding archive choose_root
  use_head fuel tm (some p) next_ind = do
    (λ s. ok (tt, record s { root = some p }))
    archive fuel tm p
    (λ s. ok (tt, record s { next_ind = next_ind }))
  use_head fuel tm none next_ind = do
    p ← init_node "" (or_dir 493)
    n ← node_at p
    set_node p (record n { name = "ROOT" })
    (λ s. ok (tt, record s { root = some p }))

  -- What Init does before it mounts; a time that does not parse is 0.
  unfoldable pub init_fs : ℕ → (read_only : Bool) → (tm : Option ℕ) → Cmd S (Unit {0})
  unfolding use_head
  init_fs fuel ro tm = do
    (λ s. ok (tt, record s { read_only = ro && is_none tm }))
    (head, next_ind) ← get_head
    use_head fuel tm head next_ind
