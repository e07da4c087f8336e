-- ===== src/Dfs/Chunks/Examples.antt =====
-- A file of three bytes in a store that is a function: the theorems at this input.
use cmsc818e.Prelude.{
  ℕ, String, ◌≡◌, ◌≢◌, ◌⊎◌, inl, inr, sym, ◌∙◌, refl, ap, arith, List, [], ◌∷◌, ◌++◌, Option, none,
  some, if◌then◌else◌, ok, str_eq, str_eq_iff, true,
}
use cmsc818e.Dfs.Chunks.{Bytes, get_next_chunk_off, flush_blocks, load_blocks, window}
use cmsc818e.Dfs.Chunks.Cut.{IsCut, get_next_chunk_off-IsCut}
use cmsc818e.Dfs.Chunks.Store.{Flushed, flush_blocks-Flushed}
use cmsc818e.Dfs.Chunks.Rolling.{cut_after, get_next_chunk_off-cut_after}
use cmsc818e.Dfs.Chunks.Load.{NoCollision, load_blocks-flush_blocks}

abbrev small : Bytes
small = 7 ∷ []

abbrev three_bytes : Bytes
three_bytes = 7 ∷ 8 ∷ 9 ∷ []

abbrev Store : Type 0
Store = String → Option Bytes

abbrev put_block : String → Bytes → Store → Store
put_block k v db j = if str_eq k j then some v else db j

-- Stands for SHA-1: tells an empty block from others.
abbrev key_of : Bytes → String
key_of [] = "empty"
key_of (x ∷ xs) = "some"

abbrev no_blocks : Store
no_blocks k = none

get_next_chunk_off-IsCut_example :
    (cut : ℕ) × (get_next_chunk_off three_bytes 3 ≡ ok cut) × IsCut 3 cut
get_next_chunk_off-IsCut_example = get_next_chunk_off-IsCut three_bytes (omega arith)

flush_blocks-Flushed_example : Flushed key_of put_block three_bytes 0 no_blocks 3
flush_blocks-Flushed_example =
    flush_blocks-Flushed key_of put_block three_bytes 0 no_blocks 3 (omega arith) (omega arith)
      (omega arith)

-- A part of a single byte is that byte, or empty.
IsPart-cases : (before x after : Bytes) → small ≡ before ++ (x ++ after) → (x ≡ []) ⊎ (x ≡ small)
IsPart-cases before [] after e = inl refl
IsPart-cases [] (a ∷ []) after e = inr cc
IsPart-cases [] (a ∷ b ∷ x) after e = cc
IsPart-cases (c ∷ []) (a ∷ x) after e = cc
IsPart-cases (c ∷ d ∷ before) (a ∷ x) after e = cc

small-NoCollision : NoCollision key_of small
small-NoCollision x y p q h = decide (IsPart-cases p.0 x p.1 p.2) (IsPart-cases q.0 y q.1 q.2)
  where
    apart : key_of [] ≢ key_of small
    apart e = let same : str_eq "empty" "some" ≡ true = (str_eq_iff "empty" "some").1 e in cc

    decide : ((x ≡ []) ⊎ (x ≡ small)) → ((y ≡ []) ⊎ (y ≡ small)) → x ≡ y
    decide (inl e) (inl f) = e ∙ sym f
    decide (inr e) (inr f) = e ∙ sym f
    decide (inl e) (inr f) = absurd (apart (ap key_of (sym e) ∙ h ∙ ap key_of f))
    decide (inr e) (inl f) = absurd (apart (ap key_of (sym f) ∙ sym h ∙ ap key_of e))

load_blocks-flush_blocks_example :
    (db : Store) × (keys : List String) × (flush_blocks key_of put_block 1 small 0 no_blocks
      ≡ ok (db, keys))
    × (load_blocks db keys ≡ small)
load_blocks-flush_blocks_example =
    load_blocks-flush_blocks key_of put_block (λ db. db) (λ k j v db. refl) small no_blocks
      (omega arith) small-NoCollision

get_next_chunk_off-cut_after_example :
    get_next_chunk_off three_bytes 3 ≡ ok (cut_after three_bytes 3 0)
unfolding window
get_next_chunk_off-cut_after_example = get_next_chunk_off-cut_after three_bytes
