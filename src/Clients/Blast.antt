-- ===== src/Clients/Blast.antt =====
-- The blasts of sylan/p4/partB/client/client.go and sylan/p4/partA/client/client.go: their accesses and their keys.
use native.Mathlib.Nat.{mod-lt, mod-eq_of_lt, mod-le}
use cmsc818e.Prelude.{
  ℕ, zero, suc, ◌+◌, ◌%◌, ◌≤◌, ◌<◌, List, [], ◌∷◌, Bool, true, false, Bool-cases, ◌&&◌,
  if◌then◌else◌, leb, ltb, ◌==◌, ◌≡◌, refl, ap, ◌∙◌, inl, inr, arith, length, ok,
}
use cmsc818e.Clients.{min, all_accesses, blast_accesses}
use cmsc818e.Clients.Rounds.{count, count-thread_accesses}

-- How often an access is made by some goroutines together.
abbrev pub count_all : ℕ → List (List ℕ) → ℕ
count_all k [] = 0
count_all k (xs ∷ xss) = count k xs + count_all k xss

count-all_accesses :
    (t n i left k : ℕ)
    → 0 < t
    → t ≤ n
    → i + left ≡ t
    → n + t < 18446744073709551616
    → count_all k (all_accesses t n i left) ≡ (if ltb k n && leb i (k % t) then 1 else 0)
unfolding all_accesses
count-all_accesses t n i zero k pos_t le all small =
    let low = mod-lt k pos_t in
    let none_left : ltb k n && leb i (k % t) ≡ false = ground arith in rw none_left refl
count-all_accesses t n i (suc left) k pos_t le all small =
    let first = count-thread_accesses n t n i k pos_t (omega arith) (omega arith) small in
    let rest = count-all_accesses t n (i + 1) left k pos_t le (omega arith) small in
    let own : i % t ≡ i = mod-eq_of_lt (omega arith) in
    let below = mod-le k t in rw first (rw rest (ground (arith, own, below)))

length-all_accesses : (t n i left : ℕ) → length (all_accesses t n i left) ≡ left
unfolding all_accesses
length-all_accesses t n i zero = refl
length-all_accesses t n i (suc left) = ap suc (length-all_accesses t n (i + 1) left)

pub min-bounds : (a b : ℕ) → (min a b ≤ a) × (min a b ≤ b) × (0 < b → min a b ≡ 0 → a ≡ 0)
unfolding min
min-bounds a b = (ground arith, ground arith, λ h e. ground arith)

and_true : (b : Bool) → b && true ≡ b
and_true true = refl
and_true false = refl

-- With maxThreads positive and numbers that do not pass 64 bits, a blast has as many goroutines as accesses or threads,
-- whichever is less, and together they make each access below numAccesses once, and no other.
pub blast_accesses-once :
    (accesses max_threads : ℕ)
    → 0 < max_threads
    → accesses + max_threads < 18446744073709551616
    → (runs : List (List ℕ)) × (blast_accesses accesses max_threads ≡ ok runs)
      × (length runs ≡ min accesses max_threads)
      × ((k : ℕ) → count_all k runs ≡ (if ltb k accesses then 1 else 0))
unfolding blast_accesses
blast_accesses-once accesses max_threads some_threads small =
    let t = min accesses max_threads in
    let runs_on : (max_threads == 0) ≡ false = ground arith in
    let (le, le_max, none_for_none) = min-bounds accesses max_threads in
    (
      all_accesses t accesses 0 t,
      rw runs_on refl,
      length-all_accesses t accesses 0 t,
      λ k. elim (Bool-cases (ltb 0 t)) [
        | inl busy ↦
            let low : leb 0 (k % t) ≡ true = ground arith in
            count-all_accesses t accesses 0 t k (ground arith) le (omega arith) (omega arith)
            ∙ rw low (rw (and_true (ltb k accesses)) refl)
        | inr idle ↦
            let no_threads : t ≡ 0 = ground arith in
            let no_accesses : ltb k accesses ≡ false =
              let empty = none_for_none some_threads no_threads in ground arith in
            ap (λ x. count_all k (all_accesses x accesses 0 x)) no_threads ∙ rw no_accesses refl
      ],
    )
