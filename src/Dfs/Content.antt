-- ===== src/Dfs/Content.antt =====
-- How Write of sylan/p2/dfs/fs.go changes the content of a file. The kernel sends no negative offset.
pub mod Splice
mod Examples
use cmsc818e.Prelude.{
  ℕ, zero, suc, ◌+◌, ◌-◌, pos, List, [], ◌++◌, leb, ltb, if◌then◌else◌, length, drop, Result, ok,
  panic, and_then, index, assign,
}
use cmsc818e.Dfs.Chunks.{Bytes}

-- for i := …; i < …; i++ { n.data[i] = req.Data[i-req.Offset] }, with k rounds left
unfoldable pub copy_bytes : Bytes → (offset : ℕ) → Bytes → (i : ℕ) → ℕ → Result Bytes
copy_bytes content offset new i zero = ok content
copy_bytes content offset new i (suc k) = and_then (index new (pos (i - offset))) (λ x.
    and_then (assign content (pos i) x) (λ content'. copy_bytes content' offset new (i + 1) k))

-- req.Data[int64(len(n.data))-req.Offset:], where a negative bound panics
unfoldable pub tail_from : Bytes → ℕ → ℕ → Result Bytes
tail_from new size offset =
    if ltb size offset
    then panic
    else if leb (size - offset) (length new)
    then ok (drop (size - offset) new)
    else panic

unfoldable pub extend : Bytes → ℕ → Bytes → Result Bytes
extend content offset new =
    and_then (copy_bytes content offset new offset (length content - offset)) (λ content'.
      and_then (tail_from new (length content') offset) (λ tail. ok (content' ++ tail)))

-- n.data after a write. Where the end of the write passes int64 it is negative, and no loop runs.
unfoldable pub write_data : Bytes → (offset : ℕ) → Bytes → Result Bytes
write_data content offset new =
    if ltb (offset + length new) 9223372036854775808
    then if ltb (length content) (offset + length new)
      then extend content offset new
      else copy_bytes content offset new offset (length new)
    else ok content
