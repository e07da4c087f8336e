-- ===== src/Dfs/Chunks/Cut.antt =====
-- Where getNextChunkOff cuts.
use cmsc818e.Prelude.{
  ℕ, zero, suc, ◌+◌, ◌-◌, ◌*◌, ◌≤◌, ◌<◌, ◌≡◌, refl, ◌⊎◌, inl, inr, arith, Bool-cases, length,
  get_elem?_of_lt, ok, true, false, ltb,
}
use cmsc818e.Dfs.Chunks.{Bytes, fill, is_end, roll, roll_hash, window, wrap, get_next_chunk_off}

-- A cut of `len` bytes: not empty, at most 8192, and at least 2048 unless it takes the whole.
pub record IsCut (len off : ℕ) : Type 0 where
  pub above : 0 < off
  pub within : off ≤ len
  pub at_most : off ≤ 8192
  pub at_least : (off ≡ len) ⊎ (2048 ≤ off)

fill_total :
    (buf : Bytes) (off hash k : ℕ) → off + k ≤ length buf → (h : ℕ) × (fill buf off hash k ≡ ok h)
unfolding fill
fill_total buf off hash zero le = (hash, refl)
fill_total buf off hash (suc k) le =
    let (x, at) = get_elem?_of_lt buf off (omega arith) in
    let (h, e) = fill_total buf (off + 1) (wrap (hash * 31 + x)) k (omega arith) in (h, rw at e)

is_end-bounds : (off hash : ℕ) → is_end off hash ≡ true → 2048 ≤ off
unfolding is_end
is_end-bounds off hash h = ground arith

is_end-below : (off hash : ℕ) → is_end off hash ≡ false → off < 8192
unfolding is_end
is_end-below off hash h = ground arith

roll-IsCut :
    (buf : Bytes) (off hash k : ℕ)
    → off + k ≡ length buf
    → 0 < off
    → off < 8192
    → (cut : ℕ) × (roll buf off hash k ≡ ok cut) × IsCut (length buf) cut
unfolding roll
roll-IsCut buf off hash zero e lo hi = (
  off,
  refl,
  record { above = lo; within = omega arith; at_most = omega arith; at_least = inl (omega arith) },
)
roll-IsCut buf off hash (suc k) e lo hi =
    let (old, at_old) = get_elem?_of_lt buf (off - 32) (omega arith) in
    let (new, at_new) = get_elem?_of_lt buf off (omega arith) in
    let hash' = roll_hash hash old new in
    elim (Bool-cases (is_end (off + 1) hash')) [
      | inl stop ↦ (
        off + 1,
        rw (at_old, at_new, stop) refl,
        record {
          above = omega arith;
          within = omega arith;
          at_most = omega arith;
          at_least = inr (is_end-bounds (off + 1) hash' stop);
        },
      )
      | inr go ↦
          let (cut, ran, good) =
            roll-IsCut buf (off + 1) hash' k (omega arith) (omega arith)
              (is_end-below (off + 1) hash' go) in
          (cut, rw (at_old, at_new, go) ran, good)
    ]

window-bounds : (len : ℕ) → 0 < len → (0 < window len) × (window len ≤ len) × (window len ≤ 32)
unfolding window
window-bounds len h = elim (Bool-cases (ltb len 32)) [
  | inl small ↦ rw small (h, ground arith, ground arith)
  | inr large ↦ rw large (omega arith, ground arith, ground arith)
]

-- On a buffer that is not empty, of which it is given the length, getNextChunkOff returns an offset
-- above 0, at most that length and at most 8192; and below 2048 only if it is that length.
pub get_next_chunk_off-IsCut :
    (buf : Bytes)
    → 0 < length buf
    → (cut : ℕ) × (get_next_chunk_off buf (length buf) ≡ ok cut) × IsCut (length buf) cut
unfolding get_next_chunk_off
get_next_chunk_off-IsCut buf h =
    let (lo, mid, hi) = window-bounds (length buf) h in
    let (hash, filled) = fill_total buf 0 0 (window (length buf)) (omega arith) in
    let (cut, ran, good) =
      roll-IsCut buf (window (length buf)) hash (length buf - window (length buf)) (omega arith) lo
        (omega arith) in
    (cut, rw filled ran, good)
