-- ===== src/ChunkServer/Examples.antt =====
-- The chunk server over an association list.
use cmsc818e.Prelude.{String, List, [], ◌∷◌, Option, some, ◌≡◌, refl, ap, ◌∙◌, sym, if◌then◌else◌}
use cmsc818e.Prelude.Dict.{Dict, find, find-put}
use cmsc818e.Prelude.Dict
use text.Mathlib.TextEquality.{eq_iff as str_eq_iff}
use cmsc818e.ChunkServer.{Bytes, list, answered, chunk_put, chunk_get}
use cmsc818e.ChunkServer.Calls.{list-blank, chunk_get-chunk_put}

abbrev store_put : Dict Bytes → String → Bytes → Option (Dict Bytes)
store_put s key value = some (Dict.put key value s)

abbrev store_get : Dict Bytes → String → Option Bytes
store_get s key = find key s

abbrev store_keys : Dict Bytes → List String
store_keys [] = []
store_keys ((k, v) ∷ s) = k ∷ store_keys s

abbrev two_chunks : Dict Bytes
two_chunks = ("sha1_a", 1 ∷ []) ∷ ("sha1_b", 2 ∷ []) ∷ []

store_get-store_put :
    (s t : Dict Bytes) (key : String) (value : Bytes)
    → store_put s key value ≡ some t
    → store_get t key ≡ some value
store_get-store_put s t key value h =
    let same : Dict.put key value s ≡ t = cc in
    ap (find key) (sym same)
    ∙ find-put key key value s
    ∙ ap (λ b. if b then some value else find key s) ((str_eq_iff key key).1 refl)

list-blank_example : list store_put store_get store_keys two_chunks ≡ "" ∷ "" ∷ []
list-blank_example = list-blank store_put store_get store_keys two_chunks

chunk_get-chunk_put_example :
    chunk_get store_put store_get store_keys answered
      (Dict.put "sha1_b" (7 ∷ []) two_chunks)
      "sha1_b"
    ≡ some (7 ∷ [])
unfolding chunk_put
chunk_get-chunk_put_example =
    chunk_get-chunk_put store_put store_get store_keys store_get-store_put answered two_chunks
      (Dict.put "sha1_b" (7 ∷ []) two_chunks) "sha1_b" (7 ∷ []) refl
