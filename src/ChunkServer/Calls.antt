-- ===== src/ChunkServer/Calls.antt =====
-- Calls of the chunk server of sylan/p3/chunk/main.go and sylan/p3/dfs/chunkClient.go.
use cmsc818e.Prelude.{
  ℕ, ◌+◌, String, List, [], ◌∷◌, Option, some, Option-cases, length, replicate, ◌≡◌, inl, inr, refl,
  ap, ◌∙◌, arith,
}
use cmsc818e.ChunkServer.{
  Bytes, count_keys, copy_keys, list_keys, list, Delivery, answered, no_call, no_reply, put,
  put_result, put_done, get, get_result, value_of, chunk_put, chunk_get,
}

count_keys_lem : (n : ℕ) (keys : List String) → count_keys n keys ≡ (n + length keys, [])
unfolding count_keys
count_keys_lem n [] = ap (λ m. (m, [])) (omega arith)
count_keys_lem n (k ∷ keys) = count_keys_lem (n + 1) keys ∙ ap (λ m. (m, [])) (omega arith)

module _ {S : Type 0} (db_put : S → String → Bytes → Option S) (db_get : S → String → Option Bytes)
    (db_keys : S → List String) where
  -- List replies with as many strings as the store has keys, and every one of them is empty.
  pub list-blank : (s : S) → list db_put db_get db_keys s ≡ replicate (length (db_keys s)) ""
  unfolding list list_keys copy_keys
  list-blank s =
      ap (λ r. copy_keys (replicate r.0 "") r.1) (count_keys_lem 0 (db_keys s))
      ∙ ap (λ n. replicate n "") (omega arith)

  -- A ChunkGet reads back what a ChunkPut that reports no error has stored, over a store whose Get finds
  -- what its Put has stored, while the server answers.
  pub chunk_get-chunk_put :
      ((s t : S) (key : String) (value : Bytes)
        → db_put s key value ≡ some t
        → db_get t key ≡ some value)
      → (way : Delivery) (s t : S) (key : String) (value : Bytes)
      → chunk_put db_put db_get db_keys way s key value ≡ (some tt, t)
      → chunk_get db_put db_get db_keys answered t key ≡ some value
  unfolding chunk_put put put_result put_done chunk_get get get_result value_of
  chunk_get-chunk_put law answered s t key value h = elim (Option-cases (db_put s key value)) [
    | inl e ↦ let no = ap (λ r. r.0) (rw e at h) in cc
    | inr (s', e) ↦
        let same : s' ≡ t = ap (λ r. r.1) (rw e at h) in
        rw (law s t key value (e ∙ ap some same)) refl
  ]
  chunk_get-chunk_put law no_call s t key value h = let no = ap (λ r. r.0) h in cc
  chunk_get-chunk_put law no_reply s t key value h = let no = ap (λ r. r.0) h in cc
