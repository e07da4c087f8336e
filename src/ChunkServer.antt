-- ===== src/ChunkServer.antt =====
-- The chunk server of sylan/p3/chunk/main.go with its client, sylan/p3/dfs/chunkClient.go. leveldb is an
-- argument: Put gives the store after it, none where it fails, and an iterator goes through `db_keys`.
pub mod Calls
mod Examples
use cmsc818e.Prelude.{
  ℕ, zero, suc, ◌+◌, String, List, [], ◌∷◌, Option, none, some, length, replicate, set, ◌≡◌, refl,
  ap, ◌∙◌, arith,
}

abbrev pub Bytes : Type 0
Bytes = List ℕ

-- What a handler returns to its caller: a reply, an error beside a reply, or an error alone.
pub data Outcome (A : Type 0) : Type 0 where
  replied : A → Outcome A
  failed_with : A → Outcome A
  failed : Outcome A

pub record PutReply : Type 0 where
  pub error_string : String

pub record GetReply : Type 0 where
  pub key : String
  pub value : Bytes

-- iter.Next() until it is false: the count, and what the iterator has left.
unfoldable pub count_keys : ℕ → List String → ℕ × List String
count_keys count [] = (count, [])
count_keys count (k ∷ rest) = count_keys (count + 1) rest

-- The second loop, which writes each key to the index 0.
unfoldable pub copy_keys : List String → List String → List String
copy_keys found [] = found
copy_keys found (k ∷ rest) = copy_keys (set found 0 k) rest

unfoldable pub list_keys : (keys : List String) → List String
unfolding count_keys copy_keys
list_keys keys = let (count, rest) = count_keys 0 keys in copy_keys (replicate count "") rest

-- How a call of the client fares within its second: it is answered, it never arrives, or the reply is
-- late.
pub data Delivery : Type 0 where
  answered no_call no_reply : Delivery

module _ {S : Type 0} (db_put : S → String → Bytes → Option S) (db_get : S → String → Option Bytes)
    (db_keys : S → List String) where
  unfoldable pub put_result : S → Option S → Outcome PutReply × S
  put_result s (some s') = (replied (record { error_string = "" }), s')
  put_result s none = (failed_with (record { error_string = "error" }), s)

  unfoldable pub put : S → String → Bytes → Outcome PutReply × S
  unfolding put_result
  put s key value = put_result s (db_put s key value)

  unfoldable pub get_result : String → Option Bytes → Outcome GetReply
  get_result key (some value) = replied (record { key = key; value = value })
  get_result key none = failed

  unfoldable pub get : S → String → Outcome GetReply
  unfolding get_result
  get s key = get_result key (db_get s key)

  -- The reply of List.
  unfoldable pub list : S → List String
  unfolding list_keys
  list s = list_keys (db_keys s)

  -- Whether ChunkPut returns nil.
  unfoldable pub put_done : Outcome PutReply × S → Option (Unit {0}) × S
  put_done (replied r, s) = (some tt, s)
  put_done (failed_with r, s) = (none, s)
  put_done (failed, s) = (none, s)

  unfoldable pub chunk_put : Delivery → S → String → Bytes → Option (Unit {0}) × S
  unfolding put put_done
  chunk_put answered s key value = put_done (put s key value)
  chunk_put no_call s key value = (none, s)
  chunk_put no_reply s key value = (none, (put s key value).1)

  unfoldable pub value_of : Outcome GetReply → Option Bytes
  value_of (replied r) = some r.value
  value_of _ = none

  -- ChunkGet, none for an error.
  unfoldable pub chunk_get : Delivery → S → String → Option Bytes
  unfolding get value_of
  chunk_get answered s key = value_of (get s key)
  chunk_get _ s key = none
