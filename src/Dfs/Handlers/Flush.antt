-- ===== src/Dfs/Handlers/Flush.antt =====
-- What goFlush of sylan/p2/dfs/fs.go does to a node, over what its loop does to the store.
use mathlib.Core.Path.{subst}
use cmsc818e.Prelude.{
  ◌<◌, String, ◌≡◌, ◌≢◌, refl, ap, ◌∙◌, false, true, List, map, some, ok, length, arith,
}
use cmsc818e.Dfs.Chunks.{Bytes, flush_blocks}
use cmsc818e.Dfs.Chunks.Store.{concat, IsSized, store_all, flush_blocks-Flushed}
use cmsc818e.Dfs.State.{Ptr, Node, Fs, lift, lock, unlock, node_at, set_cell}
use cmsc818e.Dfs.State.Heap.{bind_of, lock_of, unlock_of, node_at_of, set_cell_self, set_cell_ne}
use cmsc818e.Dfs.Wire.{Env}
use cmsc818e.Dfs.Load.{update}
use cmsc818e.Dfs.Load.Marks.{marked, MarkedCell}
use cmsc818e.Dfs.Load.Grow.{IsHeap}
use cmsc818e.Dfs.Load.Shape.{set_cell-SameShape}
use cmsc818e.Dfs.Handlers.{flush_content, go_flush}
use cmsc818e.Dfs.Handlers.Finish.{update_of, IsHeap-SameShape, IsHeap-Updated, IsHeap-unlocked}
use cmsc818e.Dfs.Handlers.Setattr.{set_cell-none}

-- A node whose content was flushed to blocks with these keys.
abbrev pub flushed : Node → List String → Node
flushed n keys = record n { data_blocks = keys; dirty = false }

-- What goFlush leaves of a file with this content.
pub record FlushedFile {S : Type 0} (env : Env S) (s t : Fs S) (p : Ptr) (n : Node)
    (content : Bytes) : Type 0 where
  pub blocks : List Bytes
  pub whole : concat blocks ≡ content
  pub sized : IsSized blocks
  pub stored : t.db ≡ store_all env.sha1 env.db_put blocks s.db
  pub file : t.heap p ≡ some (marked (flushed n (map env.sha1 blocks)) (s.clock 0) true)
  pub others : (q : Ptr) → p ≢ q → MarkedCell (s.heap q) (t.heap q)
  pub unlocked : t.locked ≡ false
  pub ok_heap : IsHeap t

-- For a loaded file with content, with the lock free, goFlush returns: the file names the keys of
-- blocks that are its content in order, each put into the store under its SHA-1; the file is not dirty
-- any more and its node will be saved; no other node changes but for its marks, and the lock is free.
pub go_flush-FlushedFile :
    {S : Type 0} (env : Env S) (s : Fs S) (p : Ptr) (n : Node) (content : Bytes)
    → s.heap p ≡ some n
    → n.load_from_db ≡ false
    → n.content ≡ some content
    → length content < 18446744073709551616
    → s.locked ≡ false
    → IsHeap s
    → (t : Fs S) × (go_flush env p s ≡ ok (tt, t)) × FlushedFile env s t p n content
unfolding go_flush flush_content
go_flush-FlushedFile {S} env s p n content at_p is_loaded has small free ok_heap =
    let f =
      flush_blocks-Flushed env.sha1 env.db_put content 0 s.db (length content) small (omega arith)
        (omega arith) in
    let keys = map env.sha1 f.blocks in
    let db = store_all env.sha1 env.db_put f.blocks s.db in
    let held : Fs S = record s { locked = true } in
    let put_all : Fs S = record held { db = db } in
    let edited : Fs S = record put_all { heap = set_cell s.heap p (flushed n keys) } in
    let edited_fine : IsHeap edited =
      IsHeap-SameShape s edited refl (set_cell-SameShape s.heap p n (flushed n keys) at_p refl refl)
        (λ q e. set_cell-none s.heap p q n (flushed n keys) at_p e) ok_heap in
    let (t, ran, u) =
      update_of env p edited (set_cell_self s.heap p (flushed n keys)) is_loaded edited_fine in
    let last : Fs S = record t { locked = false } in
    (
      last,
      bind_of (node_at p) (λ m. flush_content env p m.content) s (node_at_of p s at_p)
          ∙ ap (λ o. flush_content env p o s) has
          ∙ bind_of lock _ s (lock_of s free)
          ∙ bind_of (lift (flush_blocks env.sha1 env.db_put (length content) content 0 s.db)) _ held
              (ap (λ r. lift r held) f.runs)
          ∙ bind_of (node_at p) _ put_all (node_at_of p put_all at_p)
          ∙ bind_of (update env (some p)) (λ _. unlock) edited ran
          ∙ unlock_of t (ap (λ (x : Fs S). x.locked) u.rest),
      record {
        blocks = f.blocks;
        whole = f.whole;
        sized = f.sized;
        stored = ap (λ (x : Fs S). x.db) u.rest;
        file = u.own (flushed n keys) (set_cell_self s.heap p (flushed n keys));
        others = λ q other.
            subst (λ o. MarkedCell o (t.heap q)) (set_cell_ne s.heap p q (flushed n keys) other)
              (u.cells q);
        unlocked = refl;
        ok_heap = IsHeap-unlocked t (IsHeap-Updated p edited t u edited_fine);
      },
    )
