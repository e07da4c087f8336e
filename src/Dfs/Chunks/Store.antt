-- ===== src/Dfs/Chunks/Store.antt =====
-- What the loop of goFlush stores, and what the loop of loadAllData reads back.
use cmsc818e.Prelude.{
  ℕ, zero, suc, String, ◌+◌, ◌-◌, ◌%◌, ◌≤◌, ◌<◌, ◌≡◌, refl, sym, ap, ◌∙◌, ◌⊎◌, inl, inr, arith,
  Bool-cases, List, [], ◌∷◌, ◌++◌, map, leb, ltb, length, take, drop, ok, All, true, false,
  length-drop, length-take, take-append-drop,
}
use native.Mathlib.Nat.{mod-eq_of_lt}
use cmsc818e.Dfs.Chunks.{Bytes, wrap, slice, get_next_chunk_off, flush_blocks}
use cmsc818e.Dfs.Chunks.Cut.{IsCut, get_next_chunk_off-IsCut}

abbrev pub concat : List Bytes → Bytes
concat [] = []
concat (b ∷ bs) = b ++ concat bs

-- A run of consecutive bytes of the content.
abbrev pub IsPart : Bytes → Bytes → Type 0
IsPart content block = (before after : Bytes) × (content ≡ before ++ (block ++ after))

-- Blocks of 1 to 8192 bytes, and of at least 2048 where more bytes follow.
abbrev pub IsSized : List Bytes → Type 0
IsSized [] = Unit
IsSized (b ∷ bs) =
    (0 < length b) × (length b ≤ 8192) × ((concat bs ≡ []) ⊎ (2048 ≤ length b)) × IsSized bs

pub take-all : (n : ℕ) (xs : Bytes) → length xs ≤ n → take n xs ≡ xs
take-all zero [] h = refl
take-all zero (x ∷ xs) h = absurd (omega arith)
take-all (suc n) [] h = refl
take-all (suc n) (x ∷ xs) h = ap (λ r. x ∷ r) (take-all n xs (omega arith))

pub drop-all : (n : ℕ) (xs : Bytes) → length xs ≤ n → drop n xs ≡ []
drop-all zero [] h = refl
drop-all zero (x ∷ xs) h = absurd (omega arith)
drop-all (suc n) [] h = refl
drop-all (suc n) (x ∷ xs) h = drop-all n xs (omega arith)

drop-drop : (m n : ℕ) (xs : Bytes) → drop m (drop n xs) ≡ drop (n + m) xs
drop-drop m zero xs = let e : 0 + m ≡ m = omega arith in rw e refl
drop-drop m (suc n) [] = drop-all m [] (omega arith) ∙ sym (drop-all (suc n + m) [] (omega arith))
drop-drop m (suc n) (x ∷ xs) =
    let e : suc n + m ≡ suc (n + m) = omega arith in rw e (drop-drop m n xs)

slice-eq :
    (xs : Bytes) (lo n : ℕ) → lo + n ≤ length xs → slice xs lo (lo + n) ≡ ok (take n (drop lo xs))
unfolding slice
slice-eq xs lo n h =
    let low : leb lo (lo + n) ≡ true = ground arith in
    let high : leb (lo + n) (length xs) ≡ true = ground arith in
    let width : lo + n - lo ≡ n = omega arith in rw (low, high, width) refl

-- The rest of the content, from an offset on.
slice_rest : (xs : Bytes) (lo : ℕ) → lo ≤ length xs → slice xs lo (length xs) ≡ ok (drop lo xs)
unfolding slice
slice_rest xs lo h =
    let low : leb lo (length xs) ≡ true = ground arith in
    let high : leb (length xs) (length xs) ≡ true = ground arith in
    rw (low, high)
      (ap ok (take-all (length xs - lo) (drop lo xs) (omega (arith, length-drop lo xs))))

-- The block between two offsets is a run of consecutive bytes.
take-drop-IsPart : (content : Bytes) (off n : ℕ) → IsPart content (take n (drop off content))
take-drop-IsPart content off n = (
  take off content,
  drop n (drop off content),
  sym (take-append-drop off content)
      ∙ ap (λ r. take off content ++ r) (sym (take-append-drop n (drop off content))),
)

module _ {S : Type 0} (sha1 : Bytes → String) (put : String → Bytes → S → S) where
  abbrev pub store_all : List Bytes → S → S
  store_all [] db = db
  store_all (b ∷ bs) db = store_all bs (put (sha1 b) b db)

  -- The blocks of a run of the loop from `off` on.
  pub record Flushed (content : Bytes) (off : ℕ) (db : S) (fuel : ℕ) : Type 0 where
    pub blocks : List Bytes
    pub runs : flush_blocks sha1 put fuel content off db ≡ ok (store_all blocks db, map sha1 blocks)
    pub whole : concat blocks ≡ drop off content
    pub sized : IsSized blocks
    pub parts : All (IsPart content) blocks

  flush_blocks-step :
      (content : Bytes) (off : ℕ) (db : S) (fuel cut : ℕ)
      → off < length content
      → length content < 18446744073709551616
      → get_next_chunk_off (drop off content) (length (drop off content)) ≡ ok cut
      → IsCut (length (drop off content)) cut
      → Flushed content
          (off + cut)
          (put (sha1 (take cut (drop off content))) (take cut (drop off content)) db)
          fuel
      → Flushed content off db (suc fuel)
  unfolding flush_blocks wrap
  flush_blocks-step content off db fuel cut lt small ran good rest =
      let block = take cut (drop off content) in
      let len = length-drop off content in
      let more : ltb off (length content) ≡ true = ground arith in
      let fits : off + cut ≤ length content = omega (arith, len, good.within) in
      let no_wrap : (off + cut) % 18446744073709551616 ≡ off + cut = mod-eq_of_lt (omega arith) in
      let size : length block ≡ cut =
        omega (arith, length-take cut (drop off content), good.within) in
      record {
        blocks = block ∷ rest.blocks;
        runs =
            rw
              (
                more,
                slice_rest content off (omega arith),
                rw len at ran,
                no_wrap,
                slice-eq content off cut fits,
                rest.runs,
              )
              refl;
        whole =
            ap (λ r. block ++ r) (rest.whole ∙ sym (drop-drop cut off content))
            ∙ take-append-drop cut (drop off content);
        sized = (
          omega (arith, size, good.above),
          omega (arith, size, good.at_most),
          last good.at_least fits size rest.whole,
          rest.sized,
        );
        parts = (take-drop-IsPart content off cut, rest.parts);
      }
    where
      last :
          (cut ≡ length (drop off content)) ⊎ (2048 ≤ cut)
          → off + cut ≤ length content
          → length (take cut (drop off content)) ≡ cut
          → concat rest.blocks ≡ drop (off + cut) content
          → (concat rest.blocks ≡ []) ⊎ (2048 ≤ length (take cut (drop off content)))
      last (inl e) fits size whole =
          inl (whole ∙ drop-all (off + cut) content (omega (arith, length-drop off content)))
      last (inr h) fits size whole = inr (omega arith)

  -- With a round of fuel for each byte left, the loop of goFlush ends from every offset of the
  -- content. It cuts the rest of it into blocks of 1 to 8192 bytes, of at least 2048 where more bytes
  -- follow; it puts each block under its SHA-1 in order, and returns these keys.
  pub flush_blocks-Flushed :
      (content : Bytes) (off : ℕ) (db : S) (fuel : ℕ)
      → length content < 18446744073709551616
      → off ≤ length content
      → length content ≤ off + fuel
      → Flushed content off db fuel
  unfolding flush_blocks
  flush_blocks-Flushed content off db zero small within enough =
      let stop : ltb off (length content) ≡ false = ground arith in
      record {
        blocks = [];
        runs = rw stop refl;
        whole = sym (drop-all off content (omega arith));
        sized = tt;
        parts = tt;
      }
  flush_blocks-Flushed content off db (suc fuel) small within enough =
      elim (Bool-cases (ltb off (length content))) [
        | inl more ↦
            let len = length-drop off content in
            let lt : off < length content = ground arith in
            let (cut, ran, good) = get_next_chunk_off-IsCut (drop off content) (omega arith) in
            let block = take cut (drop off content) in
            flush_blocks-step content off db fuel cut lt small ran good (
              flush_blocks-Flushed content (off + cut) (put (sha1 block) block db) fuel small
                (omega (arith, good.within)) (omega (arith, good.above)))
        | inr stop ↦
            let le : length content ≤ off = ground arith in
            record {
              blocks = [];
              runs = rw stop refl;
              whole = sym (drop-all off content le);
              sized = tt;
              parts = tt;
            }
      ]
