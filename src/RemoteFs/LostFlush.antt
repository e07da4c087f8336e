-- ===== src/RemoteFs/LostFlush.antt =====
-- goFlush of sylan/p3/main.go when the chunk server does not get the blocks.
use cmsc818e.Prelude.{
  ◌<◌, String, ◌≡◌, refl, ap, ◌∙◌, true, false, List, [], ◌∷◌, map, some, none, ok, length,
}
use cmsc818e.Dfs.Chunks.{Bytes, load_blocks}
use cmsc818e.Dfs.Chunks.Store.{store_all}
use cmsc818e.Dfs.State.{Ptr, Node, Fs}
use cmsc818e.Dfs.Wire.{Env}
use cmsc818e.Dfs.Load.Marks.{marked}
use cmsc818e.Dfs.Load.Grow.{IsHeap}
use cmsc818e.Dfs.Handlers.Flush.{flushed, go_flush-FlushedFile}
use cmsc818e.ChunkServer.{
  Delivery, answered, no_call, no_reply, chunk_put, chunk_get, get, get_result, value_of,
}
use cmsc818e.RemoteFs.{Remote, put_data, get_data, remote_env, go_flush}

module _ {S : Type 0} (server : Remote S) (libs : Env S)
    (lost : (s : S) (key : String) (value : Bytes) → server.put_way s key value ≡ no_call) where
  put_data-lost : (key : String) (value : Bytes) (s : S) → put_data server key value s ≡ s
  unfolding put_data chunk_put
  put_data-lost key value s =
      ap (λ way. (chunk_put server.db_put server.db_get server.db_keys way s key value).1)
        (lost s key value)

  store_all-lost :
      (blocks : List Bytes) (s : S) → store_all libs.sha1 (put_data server) blocks s ≡ s
  store_all-lost [] s = refl
  store_all-lost (b ∷ blocks) s =
      store_all-lost blocks (put_data server (libs.sha1 b) b s) ∙ put_data-lost (libs.sha1 b) b s

  -- A key that the server does not hold reads as nothing, however the call fares.
  get_data-missing :
      (s : S) (key : String) → server.db_get s key ≡ none → get_data server s key ≡ none
  unfolding get_data chunk_get get get_result value_of
  get_data-missing s key missing = by_way (server.get_way s key)
    where
      by_way :
          (way : Delivery) → chunk_get server.db_put server.db_get server.db_keys way s key ≡ none
      by_way answered =
          ap
            (λ o.
              value_of server.db_put server.db_get server.db_keys
                (get_result server.db_put server.db_get server.db_keys key o))
            missing
      by_way no_call = refl
      by_way no_reply = refl

  load_blocks-missing :
      (blocks : List Bytes) (s : S)
      → ((b : Bytes) → server.db_get s (libs.sha1 b) ≡ none)
      → load_blocks (get_data server s) (map libs.sha1 blocks) ≡ []
  unfolding load_blocks
  load_blocks-missing [] s fresh = refl
  load_blocks-missing (b ∷ blocks) s fresh =
      let nothing = get_data-missing s (libs.sha1 b) (fresh b) in
      rw nothing (load_blocks-missing blocks s fresh)

  -- No put arrives at a chunk server that holds no block: for a loaded file with content, with the
  -- lock free, goFlush still returns, and the file is not dirty any more, though the server holds what it
  -- held, and the blocks that the file now names read back as no bytes at all.
  pub go_flush-lost :
      (p : Ptr) (n : Node) (content : Bytes) (s : Fs S)
      → ((b : Bytes) → server.db_get s.db (libs.sha1 b) ≡ none)
      → s.heap p ≡ some n
      → n.load_from_db ≡ false
      → n.content ≡ some content
      → length content < 18446744073709551616
      → s.locked ≡ false
      → IsHeap s
      → (t : Fs S) × (n' : Node) × (go_flush server libs p s ≡ ok (tt, t))
        × (t.heap p ≡ some n')
        × (n'.dirty ≡ false)
        × (n'.content ≡ some content)
        × (t.db ≡ s.db)
        × (load_blocks (get_data server t.db) n'.data_blocks ≡ [])
  unfolding go_flush
  go_flush-lost p n content s fresh at_p is_loaded has small free ok_heap =
      let env = remote_env server libs in
      let (t, ran, f) =
        go_flush-FlushedFile env s p n content at_p is_loaded has small free ok_heap in
      let same : t.db ≡ s.db = f.stored ∙ store_all-lost f.blocks s.db in
      let keys = map libs.sha1 f.blocks in
      (
        t,
        marked (flushed n keys) (s.clock 0) true,
        ran,
        f.file,
        refl,
        has,
        same,
        ap (λ db. load_blocks (get_data server db) keys) same
            ∙ load_blocks-missing f.blocks s.db fresh,
      )
