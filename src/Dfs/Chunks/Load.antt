-- ===== src/Dfs/Chunks/Load.antt =====
-- Loading what a flush has stored.
use cmsc818e.Prelude.{
  String, ◌<◌, ◌≡◌, refl, ap, ◌∙◌, inl, inr, arith, Bool-cases, List, [], ◌∷◌, ◌++◌, map, Option,
  some, if◌then◌else◌, length, ok, All, str_eq, str_eq_iff,
}
use cmsc818e.Dfs.Chunks.{Bytes, flush_blocks, load_blocks}
use cmsc818e.Dfs.Chunks.Store.{concat, IsPart, store_all, flush_blocks-Flushed}

-- SHA-1 gives no two different runs of bytes of this content the same key.
abbrev pub NoCollision : (Bytes → String) → Bytes → Type 0
NoCollision sha1 content =
    (x y : Bytes) → IsPart content x → IsPart content y → sha1 x ≡ sha1 y → x ≡ y

module _ {S : Type 0} (sha1 : Bytes → String) (put : String → Bytes → S → S)
    (get_data : S → String → Option Bytes)
    (get-put : (k j : String) (v : Bytes) (db : S)
      → get_data (put k v db) j ≡ (if str_eq k j then some v else get_data db j)) where
  module _ (content : Bytes) (apart : NoCollision sha1 content) where
    -- A block that is stored stays readable while other blocks are stored.
    get_data-store_all :
        (b : Bytes) (bs : List Bytes) (db : S)
        → IsPart content b
        → All (IsPart content) bs
        → get_data db (sha1 b) ≡ some b
        → get_data (store_all sha1 put bs db) (sha1 b) ≡ some b
    get_data-store_all b [] db part parts h = h
    get_data-store_all b (c ∷ cs) db part parts h =
        get_data-store_all b cs (put (sha1 c) c db) part parts.1
          (elim (Bool-cases (str_eq (sha1 c) (sha1 b))) [
            | inl hit ↦
                let same = apart c b parts.0 part ((str_eq_iff (sha1 c) (sha1 b)).0 hit) in
                get-put (sha1 c) (sha1 b) c db ∙ rw hit (ap some same)
            | inr miss ↦ get-put (sha1 c) (sha1 b) c db ∙ rw miss h
          ])

    load_blocks-store_all :
        (bs : List Bytes) (db : S)
        → All (IsPart content) bs
        → load_blocks (get_data (store_all sha1 put bs db)) (map sha1 bs) ≡ concat bs
    unfolding load_blocks
    load_blocks-store_all [] db parts = refl
    load_blocks-store_all (b ∷ bs) db parts =
        let hit = (str_eq_iff (sha1 b) (sha1 b)).1 refl in
        let stored =
          get_data-store_all b bs (put (sha1 b) b db) parts.0 parts.1
            (get-put (sha1 b) (sha1 b) b db ∙ rw hit refl) in
        rw stored (ap (λ r. b ++ r) (load_blocks-store_all bs (put (sha1 b) b db) parts.1))

  -- Where a get returns the last value put under its key, and SHA-1 does not collide on the parts of
  -- this content, the loop of goFlush ends, and loading the keys that it returns from the store that
  -- it leaves gives the content back.
  pub load_blocks-flush_blocks :
      (content : Bytes) (db : S)
      → length content < 18446744073709551616
      → NoCollision sha1 content
      → (db' : S) × (keys : List String) × (flush_blocks sha1 put (length content) content 0 db
          ≡ ok (db', keys))
        × (load_blocks (get_data db') keys ≡ content)
  load_blocks-flush_blocks content db small apart =
      let f =
        flush_blocks-Flushed sha1 put content 0 db (length content) small (omega arith)
          (omega arith) in
      (
        store_all sha1 put f.blocks db,
        map sha1 f.blocks,
        f.runs,
        load_blocks-store_all content apart f.blocks db f.parts ∙ f.whole,
      )
