-- ===== src/Dfs/Content/Examples.antt =====
-- A write that runs past the end of a file of three bytes.
use cmsc818e.Prelude.{◌≡◌, arith, [], ◌∷◌, ok}
use cmsc818e.Dfs.Content.{write_data}
use cmsc818e.Dfs.Content.Splice.{write_data-splice}

write_data-splice_example : write_data (1 ∷ 2 ∷ 3 ∷ []) 2 (8 ∷ 9 ∷ []) ≡ ok (1 ∷ 2 ∷ 8 ∷ 9 ∷ [])
write_data-splice_example = write_data-splice (1 ∷ 2 ∷ 3 ∷ []) 2 (8 ∷ 9 ∷ []) (omega arith)
