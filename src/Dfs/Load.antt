-- ===== src/Dfs/Load.antt =====
-- loadAllData and update of sylan/p2/dfs/fs.go.
pub mod Marks
pub mod Update
pub mod Grow
pub mod Shape
use cmsc818e.Prelude.{
  ℕ, zero, suc, String, List, [], ◌∷◌, Option, none, some, Bool, true, false, if◌then◌else◌, Result,
  ok, blocked,
}
use cmsc818e.Prelude.Dict.{Dict, put}
use cmsc818e.Dfs.Chunks.{load_blocks}
use cmsc818e.Dfs.State.{Ptr, Node, Fs, Cmd, pure, ◌>>=◌, ◌>>◌, get, lift, node_at, set_node, now}
use cmsc818e.Dfs.Wire.{Env, get_existing}

module _ {S : Type 0} (env : Env S) where
  -- for kidName, kidSig := range n.ChildSigs { … }, with the map of the kids so far
  unfoldable pub load_kids : Ptr → Dict String → Dict Ptr → Cmd S (Dict Ptr)
  load_kids p [] kids = pure kids
  load_kids p ((name, sig) ∷ sigs) kids = do
    q ← get_existing env sig
    kid ← node_at q
    set_node q (record kid { parent = some p })
    load_kids p sigs (put name q kids)

  unfoldable pub load_all_data : Ptr → Cmd S (Unit {0})
  load_all_data p = do
    n ← node_at p
    kids ← load_kids p n.child_sigs []
    s ← get
    n' ← node_at p
    set_node p (record n' {
      kids = some kids;
      content = some (load_blocks (env.db_get s.db) n.data_blocks);
      load_from_db = false;
    })

  unfoldable pub load_if : Ptr → (load_from_db : Bool) → Cmd S (Unit {0})
  load_if p true = load_all_data p
  load_if p false = pure tt

  -- if n.loadFromDB { n.loadAllData() }
  unfoldable pub ensure_loaded : Ptr → Cmd S (Unit {0})
  unfolding load_if
  ensure_loaded p = do n ← node_at p; load_if p n.load_from_db

  -- curNode.Attrs.Mtime = time.Now(); curNode.metaDirty = true
  unfoldable pub touch : Ptr → Cmd S (Unit {0})
  touch p = do
    t ← now
    n ← node_at p
    set_node p (record n { attrs = record n.attrs { mtime = t }; meta_dirty = true })

  -- The loop of update, from curNode on.
  unfoldable pub update_from : (fuel : ℕ) → Option Ptr → Cmd S (Unit {0})
  update_from fuel none = pure tt
  update_from zero (some p) = λ s. blocked
  update_from (suc fuel) (some p) = do
    ensure_loaded p
    touch p
    n ← node_at p
    update_from fuel n.parent

  -- A parent lies below its kids in the heap, so a round for each address is enough.
  unfoldable pub update : Option Ptr → Cmd S (Unit {0})
  update n s = update_from s.next_ptr n s
