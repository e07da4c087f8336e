-- ===== src/Dfs/Chunks.antt =====
-- How the data of a file is cut into blocks and stored: getNextChunkOff, the loop of goFlush and the
-- loop of loadAllData over the blocks, of sylan/p2/dfs/fs.go. SHA-1 and the store are arguments.
pub mod Cut
pub mod Store
pub mod Load
pub mod Rolling
mod Examples
use cmsc818e.Prelude.{
  ℕ, zero, suc, String, Bool, ◌+◌, ◌-◌, ◌*◌, ◌%◌, ◌&&◌, ◌||◌, pos, List, [], ◌∷◌, ◌++◌, Option,
  none, some, leb, ltb, ◌==◌, if◌then◌else◌, length, take, drop, Result, ok, panic, blocked,
  and_then, index,
}

abbrev pub Bytes : Type 0
Bytes = List ℕ

-- A uint64 after an operation.
unfoldable pub wrap : ℕ → ℕ
wrap x = x % 18446744073709551616

abbrev pub the_prime : ℕ
the_prime = 31

abbrev pub hash_len : ℕ
hash_len = 32

abbrev pub min_chunk : ℕ
min_chunk = 2048

abbrev pub target_chunk : ℕ
target_chunk = 4096

abbrev pub max_chunk : ℕ
max_chunk = 8192

-- for i := 0; i < HASHLEN-1; i++ { b_n *= b }, with k rounds left
unfoldable pub power : ℕ → ℕ → ℕ
power b_n zero = b_n
power b_n (suc k) = power (wrap (b_n * the_prime)) k

-- saved[x] of a byte x
unfoldable pub saved : ℕ → ℕ
saved x = wrap (x * power 1 (hash_len - 1))

-- The first loop, from `off` on with k rounds left. An offset stays at most `len`, so it cannot wrap.
unfoldable pub fill : Bytes → ℕ → ℕ → ℕ → Result ℕ
fill buf off hash zero = ok hash
fill buf off hash (suc k) =
    and_then (index buf (pos off)) (λ x. fill buf (off + 1) (wrap (hash * the_prime + x)) k)

unfoldable pub roll_hash : (hash old new : ℕ) → ℕ
roll_hash hash old new = wrap (wrap (hash + 18446744073709551616 - saved old) * the_prime + new)

-- Whether a chunk may end at `off`, with this hash.
unfoldable pub is_end : (off hash : ℕ) → Bool
is_end off hash = leb min_chunk off && (hash % target_chunk == 1) || leb max_chunk off

-- The second loop, from `off` on with k rounds left.
unfoldable pub roll : Bytes → ℕ → ℕ → ℕ → Result ℕ
roll buf off hash zero = ok off
roll buf off hash (suc k) = and_then (index buf (pos (off - hash_len))) (λ old.
    and_then (index buf (pos off)) (λ new.
      let hash' = roll_hash hash old new in
      let rest = roll buf (off + 1) hash' k in
      if is_end (off + 1) hash' then ok (off + 1) else rest))

-- Where the first loop stops.
unfoldable pub window : ℕ → ℕ
window len = if ltb len hash_len then len else hash_len

unfoldable pub get_next_chunk_off : Bytes → ℕ → Result ℕ
get_next_chunk_off buf len =
    and_then (fill buf 0 0 (window len)) (λ hash. roll buf (window len) hash (len - window len))

-- xs[lo:hi], its upper bound checked against the length.
unfoldable pub slice : Bytes → ℕ → ℕ → Result Bytes
slice xs lo hi = if leb lo hi && leb hi (length xs) then ok (take (hi - lo) (drop lo xs)) else panic

module _ {S : Type 0} (sha1 : Bytes → String) (put : String → Bytes → S → S) where
  -- The loop of goFlush from `off` on: the store after it and the keys it appends. On fuel, with
  -- `blocked` for a loop that has not ended.
  unfoldable pub flush_blocks : (fuel : ℕ) → Bytes → ℕ → S → Result (S × List String)
  flush_blocks zero content off db = if ltb off (length content) then blocked else ok (db, [])
  flush_blocks (suc fuel) content off db =
      if ltb off (length content)
      then and_then (slice content off (length content)) (λ buf.
        and_then (get_next_chunk_off buf (length content - off)) (λ cut.
          let next_off = wrap (off + cut) in
          and_then (slice content off next_off) (λ block.
            let key = sha1 block in
            and_then (flush_blocks fuel content next_off (put key block db))
              (λ (db', keys). ok (db', key ∷ keys)))))
      else ok (db, [])

-- A block whose key the store does not hold reads as nil.
abbrev pub bytes_of : Option Bytes → Bytes
bytes_of none = []
bytes_of (some block) = block

-- for _, sig := range n.DataBlocks { block, _ := getData(sig); n.data = append(n.data, block...) }
unfoldable pub load_blocks : (get_data : String → Option Bytes) → List String → Bytes
load_blocks get_data [] = []
load_blocks get_data (key ∷ keys) = bytes_of (get_data key) ++ load_blocks get_data keys
