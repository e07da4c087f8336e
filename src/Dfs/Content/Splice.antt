-- ===== src/Dfs/Content/Splice.antt =====
-- A write replaces a run of bytes, and may extend the file.
use cmsc818e.Prelude.{
  ℕ, zero, suc, ◌+◌, ◌-◌, ◌≤◌, ◌<◌, ◌≡◌, refl, sym, ap, ◌∙◌, inl, inr, arith, Bool-cases, true,
  false, [], ◌∷◌, ◌++◌, some, leb, ltb, if◌then◌else◌, length, get_elem?, set, take, drop, ok,
  panic, get_elem?_of_lt, assign_of_lt, length-set, length-take, length-append, take-append-drop,
}
use mathlib.Core.List.{append_assoc, append-nil}
use cmsc818e.Dfs.Chunks.{Bytes}
use cmsc818e.Dfs.Chunks.Store.{take-all, drop-all}
use cmsc818e.Dfs.Content.{copy_bytes, tail_from, extend, write_data}

-- The content with the bytes from `offset` on replaced by the new ones.
abbrev pub splice : Bytes → ℕ → Bytes → Bytes
splice content offset new = take offset content ++ (new ++ drop (offset + length new) content)

drop-get_elem? :
    (xs : Bytes) (j : ℕ) {x : ℕ} → get_elem? xs j ≡ some x → drop j xs ≡ x ∷ drop (suc j) xs
drop-get_elem? [] j h = cc
drop-get_elem? (y ∷ xs) zero h = let same = ap (λ o. o) h in cc
drop-get_elem? (y ∷ xs) (suc j) h = drop-get_elem? xs j h

drop-set : (xs : Bytes) (i m v : ℕ) → i < m → drop m (set xs i v) ≡ drop m xs
drop-set [] i m v h = refl
drop-set (x ∷ xs) i zero v h = absurd (omega arith)
drop-set (x ∷ xs) zero (suc m) v h = refl
drop-set (x ∷ xs) (suc i) (suc m) v h = drop-set xs i m v (omega arith)

take-set : (xs : Bytes) (i v : ℕ) → i < length xs → take (suc i) (set xs i v) ≡ take i xs ++ v ∷ []
take-set [] i v h = absurd (omega arith)
take-set (x ∷ xs) zero v h = refl
take-set (x ∷ xs) (suc i) v h = ap (λ r. x ∷ r) (take-set xs i v (omega arith))

copy_bytes-eq :
    (content : Bytes) (offset : ℕ) (new : Bytes) (i k : ℕ)
    → offset ≤ i
    → i + k ≤ length content
    → i - offset + k ≤ length new
    → copy_bytes content offset new i k
      ≡ ok (take i content ++ (take k (drop (i - offset) new) ++ drop (i + k) content))
unfolding copy_bytes
copy_bytes-eq content offset new i zero le within enough =
    let e : i + 0 ≡ i = omega arith in rw e (ap ok (sym (take-append-drop i content)))
copy_bytes-eq content offset new i (suc k) le within enough =
    let (x, at) = get_elem?_of_lt new (i - offset) (omega arith) in
    let next : i + 1 ≡ suc i = omega arith in
    let there : suc i - offset ≡ suc (i - offset) = omega arith in
    let past : suc i + k ≡ i + suc k = omega arith in
    let rest =
      copy_bytes-eq (set content i x) offset new (suc i) k (omega arith)
        (omega (arith, length-set content i x)) (omega arith) in
    rw
      (
        at,
        assign_of_lt content i x (omega arith),
        next,
        rest,
        take-set content i x (omega arith),
        drop-set content i (suc i + k) x (omega arith),
        drop-get_elem? new (i - offset) at,
        there,
        past,
      )
      (ap ok (
        append_assoc (take i content) (x ∷ [])
          (take k (drop (suc (i - offset)) new) ++ drop (i + suc k) content)))

tail_from-eq :
    (new : Bytes) (size offset : ℕ)
    → offset ≤ size
    → size ≤ offset + length new
    → tail_from new size offset ≡ ok (drop (size - offset) new)
unfolding tail_from
tail_from-eq new size offset lo hi =
    let start : ltb size offset ≡ false = ground arith in
    let end : leb (size - offset) (length new) ≡ true = ground arith in rw (start, end) refl

tail_from_gap : (new : Bytes) (size offset : ℕ) → size < offset → tail_from new size offset ≡ panic
unfolding tail_from
tail_from_gap new size offset h = let start : ltb size offset ≡ true = ground arith in rw start refl

-- A write within the content.
copy_bytes-splice :
    (content : Bytes) (offset : ℕ) (new : Bytes)
    → offset + length new ≤ length content
    → copy_bytes content offset new offset (length new) ≡ ok (splice content offset new)
copy_bytes-splice content offset new h =
    let none_left : offset - offset ≡ 0 = omega arith in
    copy_bytes-eq content offset new offset (length new) (omega arith) h (omega arith)
    ∙ rw (none_left, take-all (length new) new (omega arith)) refl

-- A write that goes past the end.
extend-splice :
    (content : Bytes) (offset : ℕ) (new : Bytes)
    → offset ≤ length content
    → length content < offset + length new
    → extend content offset new ≡ ok (splice content offset new)
unfolding extend
extend-splice content offset new lo hi =
    let more = length content - offset in
    let none_left : offset - offset ≡ 0 = omega arith in
    let all : offset + more ≡ length content = omega arith in
    let copied : copy_bytes content offset new offset more
        ≡ ok (take offset content ++ take more new) =
      copy_bytes-eq content offset new offset more (omega arith) (omega arith) (omega arith)
      ∙ rw (none_left, all, drop-all (length content) content (omega arith), append-nil) refl in
    let size : length (take offset content ++ take more new) ≡ length content = omega (
      arith,
      length-append (take offset content) (take more new),
      length-take offset content,
      length-take more new,
    ) in
    rw
      (
        copied,
        size,
        tail_from-eq new (length content) offset lo (omega arith),
        drop-all (offset + length new) content (omega arith),
        append-nil,
      )
      (ap ok (
        append_assoc (take offset content) (take more new) (drop more new)
        ∙ ap (λ r. take offset content ++ r) (take-append-drop more new)))

extend_gap :
    (content : Bytes) (offset : ℕ) (new : Bytes)
    → length content < offset
    → extend content offset new ≡ panic
unfolding extend copy_bytes
extend_gap content offset new h =
    let no_rounds : length content - offset ≡ 0 = omega arith in
    rw (no_rounds, tail_from_gap new (length content) offset h) refl

-- A write whose end is an int64 replaces the bytes from its offset on by the new ones and extends the
-- file where they go past its end; from an offset past the end of the file it panics.
pub write_data-splice :
    (content : Bytes) (offset : ℕ) (new : Bytes)
    → offset + length new < 9223372036854775808
    → write_data content offset new
      ≡ (if leb offset (length content) then ok (splice content offset new) else panic)
unfolding write_data
write_data-splice content offset new h =
    let fits : ltb (offset + length new) 9223372036854775808 ≡ true = ground arith in
    rw fits (elim (Bool-cases (leb offset (length content))) [
      | inl inside ↦ rw inside (elim (Bool-cases (ltb (length content) (offset + length new))) [
        | inl past ↦ rw past (extend-splice content offset new (ground arith) (ground arith))
        | inr within ↦ rw within (copy_bytes-splice content offset new (ground arith))
      ])
      | inr gap ↦
          let beyond : length content < offset = ground arith in
          let past : ltb (length content) (offset + length new) ≡ true = ground arith in
          rw (gap, past) (extend_gap content offset new beyond)
    ])
