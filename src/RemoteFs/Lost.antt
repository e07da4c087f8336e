-- ===== src/RemoteFs/Lost.antt =====
-- Init of sylan/p3/main.go when the chunk server does not answer.
use cmsc818e.Prelude.{ℕ, String, ◌≡◌, ◌≢◌, refl, ap, ◌∙◌, Option, none, some, Bool, ok}
use cmsc818e.Dfs.State.{Node, Fs, or_dir, ◌>>◌, set_cell, node_at, set_node}
use cmsc818e.Dfs.State.Heap.{set_cell_self, bind_of, node_at_of}
use cmsc818e.Dfs.Wire.{Env}
use cmsc818e.Dfs.Ops.{init_node}
use cmsc818e.Dfs.Handlers.Kids.{fresh_node, made_of}
use cmsc818e.Dfs.Save
use cmsc818e.ChunkServer.{Delivery, answered, no_call, no_reply, chunk_get}
use cmsc818e.RemoteFs.{Remote, get_data, remote_env, get_head, init_fs}

-- The root that Init makes where there is no head.
abbrev pub empty_root : {S : Type 0} → Fs S → Node
empty_root s = record (fresh_node s "" (or_dir 493)) { name = "ROOT" }

module _ {S : Type 0} (server : Remote S) (libs : Env S) where
  -- A call that is not answered reads nothing.
  get_data-lost :
      (s : S) (key : String) → server.get_way s key ≢ answered → get_data server s key ≡ none
  unfolding get_data chunk_get
  get_data-lost s key h = lost (server.get_way s key) refl
    where
      lost :
          (way : Delivery)
          → server.get_way s key ≡ way
          → chunk_get server.db_put server.db_get server.db_keys way s key ≡ none
      lost answered e = absurd (h e)
      lost no_call e = refl
      lost no_reply e = refl

  -- Where the call for the head is not answered, Init returns with an empty root, whatever the chunk server
  -- holds, and whether it was asked for a read-only file system or for an earlier time: it starts a new file system
  -- in which writes are allowed.
  pub init_fs-lost :
      (fuel : ℕ) (ro : Bool) (tm : Option ℕ) (s : Fs S)
      → server.get_way s.db "head" ≢ answered
      → (u : Fs S) × (init_fs server libs fuel ro tm s ≡ ok (tt, u))
        × (u.root ≡ some s.next_ptr)
        × (u.heap s.next_ptr ≡ some (empty_root s))
        × (u.db ≡ s.db)
        × (u.read_only ≡ s.read_only)
  unfolding init_fs get_head Save.get_head Save.use_head Save.decode_head Save.load_head init_node
  init_fs-lost fuel ro tm s h =
      let made = made_of s "" (or_dir 493) in
      let env = remote_env server libs in
      let none_found : get_head server libs s ≡ ok ((none, 0), s) =
        ap (λ o. Save.load_head env (Save.decode_head env o) s) (get_data-lost s.db "head" h) in
      let cell = set_cell_self s.heap s.next_ptr (fresh_node s "" (or_dir 493)) in
      (
        record made { heap = set_cell made.heap s.next_ptr (empty_root s); root = some s.next_ptr },
        bind_of (get_head server libs) _ s none_found
            ∙ bind_of (node_at s.next_ptr)
                (λ n.
                  set_node s.next_ptr (record n { name = "ROOT" })
                  >> (λ u. ok (tt, record u { root = some s.next_ptr })))
                made (node_at_of s.next_ptr made cell),
        refl,
        set_cell_self made.heap s.next_ptr (empty_root s),
        refl,
        refl,
      )
