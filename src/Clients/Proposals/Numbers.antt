-- ===== src/Clients/Proposals/Numbers.antt =====
-- The numbers in the identities of a blast of sylan/p4/partA/client/client.go.
use native.Mathlib.Nat.{
  div-add-mod, mod-lt, mul-add, mul-le-mul_left, mul-suc, mul_comm, lt_of_mul-lt-mul_left,
  div-le_self, mul-div-le,
}
use cmsc818e.Prelude.{
  ℕ, zero, suc, ◌+◌, ◌*◌, ◌/◌, ◌≤◌, ◌<◌, List, [], ◌∷◌, Bool, false, Bool-cases, ◌&&◌,
  if◌then◌else◌, leb, ltb, ◌==◌, ◌≡◌, refl, sym, ap, inl, inr, arith, length, ok,
}
use cmsc818e.Dfs.Chunks.{wrap}
use cmsc818e.Clients.{min, thread_accesses, all_accesses, blast_accesses}
use cmsc818e.Clients.Rounds.{wrap_of_lt}
use cmsc818e.Clients.Blast.{min-bounds}
use cmsc818e.Clients.Proposals.{number_from, number_all, stride_of, blast_numbers}

-- How often a number is given to an access of one goroutine, and of all.
abbrev pub uses : ℕ → List (ℕ × ℕ) → ℕ
uses num [] = 0
uses num ((k, n) ∷ run) = let rest = uses num run in if n == num then suc rest else rest

abbrev pub uses_all : ℕ → List (List (ℕ × ℕ)) → ℕ
uses_all num [] = 0
uses_all num (run ∷ runs) = uses num run + uses_all num runs

abbrev is_between : (low high num : ℕ) → Bool
is_between low high num = leb low num && ltb num high

-- The numbers of one goroutine are consecutive.
uses-number_from :
    (mon : ℕ) (ks : List ℕ) (num : ℕ)
    → mon + length ks < 18446744073709551616
    → uses num (number_from mon ks) ≡ (if is_between mon (mon + length ks) num then 1 else 0)
unfolding number_from
uses-number_from mon [] num small =
    let outside : is_between mon (mon + 0) num ≡ false = ground arith in rw outside refl
uses-number_from mon (k ∷ ks) num small =
    let next : wrap (mon + 1) ≡ mon + 1 = wrap_of_lt (mon + 1) (omega arith) in
    let rest = uses-number_from (mon + 1) ks num (omega arith) in rw next (rw rest (ground arith))

-- A goroutine that starts at m makes at most one access for each `t` numbers left.
length-thread_accesses :
    (fuel t n m : ℕ)
    → 0 < t
    → m < n
    → n + t < 18446744073709551616
    → t * length (thread_accesses fuel t n m) + m < n + t
unfolding thread_accesses
length-thread_accesses zero t n m pos_t low small = omega arith
length-thread_accesses (suc fuel) t n m pos_t low small =
    let next : wrap (m + t) ≡ m + t = wrap_of_lt (m + t) (omega arith) in
    rw next (elim (Bool-cases (leb n (m + t))) [
      | inl last ↦ rw last (omega arith)
      | inr goes ↦
          let rest = length-thread_accesses fuel t n (m + t) pos_t (ground arith) small in
          let l = length (thread_accesses fuel t n (m + t)) in
          rw goes (omega (arith, rest, mul-add t l 1))
    ])

-- The stride is as long as the longest run of a goroutine.
thread_accesses-fits :
    (accesses max_threads m : ℕ)
    → 0 < max_threads
    → m < accesses
    → accesses + max_threads < 18446744073709551616
    → length (thread_accesses accesses (min accesses max_threads) accesses m)
      ≤ stride_of accesses max_threads
unfolding stride_of min
thread_accesses-fits n most m some_threads low small = elim (Bool-cases (ltb n most)) [
  | inl few ↦
      let len = length (thread_accesses n n n m) in
      let bound : n * len + m < n + n =
        length-thread_accesses n n n m (omega arith) low (ground arith) in
      let short : len < 2 = lt_of_mul-lt-mul_left n (omega arith) in rw few (omega (arith, short))
  | inr many ↦
      let len = length (thread_accesses n most n m) in
      let bound : most * len + m < n + most =
        length-thread_accesses n most n m some_threads low small in
      let whole = div-add-mod n most in
      let part = mod-lt n some_threads in
      let two = mul-add most (n / most) 2 in
      let below : most * len < most * (n / most + 2) = omega arith in
      rw many (omega (arith, lt_of_mul-lt-mul_left most below))
]

uses-number_all :
    (t n stride i mono left num : ℕ)
    → i + left ≡ t
    → t ≤ n
    → ((m : ℕ) → m < n → length (thread_accesses n t n m) ≤ stride)
    → mono + stride * left + stride < 18446744073709551616
    → uses_all num (number_all t n stride i mono left) ≤ (if leb (mono + stride) num then 1 else 0)
unfolding number_all
uses-number_all t n stride i mono zero num all le fits small = omega arith
uses-number_all t n stride i mono (suc left) num all le fits small =
    let split = mul-suc stride left in
    let next : wrap (mono + stride) ≡ mono + stride = wrap_of_lt (mono + stride) (omega arith) in
    let ks = thread_accesses n t n i in
    let short = fits i (omega arith) in
    let first = uses-number_from (mono + stride) ks num (omega arith) in
    let rest =
      uses-number_all t n stride (i + 1) (mono + stride) left num (omega arith) le fits
        (omega arith) in
    rw next (rw first (ground arith))

-- The accesses, without their numbers.
abbrev pub firsts : List (ℕ × ℕ) → List ℕ
firsts [] = []
firsts ((k, n) ∷ run) = k ∷ firsts run

abbrev pub all_firsts : List (List (ℕ × ℕ)) → List (List ℕ)
all_firsts [] = []
all_firsts (run ∷ runs) = firsts run ∷ all_firsts runs

firsts-number_from : (mon : ℕ) (ks : List ℕ) → firsts (number_from mon ks) ≡ ks
unfolding number_from
firsts-number_from mon [] = refl
firsts-number_from mon (k ∷ ks) = ap (λ run. k ∷ run) (firsts-number_from (wrap (mon + 1)) ks)

firsts-number_all :
    (t n stride i mono left : ℕ)
    → all_firsts (number_all t n stride i mono left) ≡ all_accesses t n i left
unfolding number_all all_accesses
firsts-number_all t n stride i mono zero = refl
firsts-number_all t n stride i mono (suc left) =
    let mono' = wrap (mono + stride) in
    rw (firsts-number_from mono' (thread_accesses n t n i)) (
      ap (λ runs. thread_accesses n t n i ∷ runs) (firsts-number_all t n stride (i + 1) mono' left))

stride-room :
    (n most t : ℕ)
    → t ≤ most
    → 2 * n + most + 2 < 18446744073709551616
    → 1 + stride_of n most * t + stride_of n most < 18446744073709551616
unfolding stride_of
stride-room n most t le small =
    let wide = mul-le-mul_left (n / most + 1) le in
    let turned = mul_comm (n / most + 1) most in
    let parts = mul-add most (n / most) 1 in
    let quotient = mul-div-le n most in let short = div-le_self n most in omega arith

-- With maxThreads positive and numbers that do not pass 64 bits, the goroutines of a blast propose
-- the accesses of blast_accesses, and no two of their proposals have the same number.
pub blast_numbers-distinct :
    (accesses max_threads : ℕ)
    → 0 < max_threads
    → 2 * accesses + max_threads + 2 < 18446744073709551616
    → (runs : List (List (ℕ × ℕ))) × (blast_numbers accesses max_threads ≡ ok runs)
      × (blast_accesses accesses max_threads ≡ ok (all_firsts runs))
      × ((num : ℕ) → uses_all num runs ≤ 1)
unfolding blast_numbers blast_accesses
blast_numbers-distinct accesses max_threads some_threads small =
    let t = min accesses max_threads in
    let stride = stride_of accesses max_threads in
    let runs_on : (max_threads == 0) ≡ false = ground arith in
    let (le, le_max, none_for_none) = min-bounds accesses max_threads in
    (
      number_all t accesses stride 0 1 t,
      rw runs_on refl,
      rw runs_on (ap ok (sym (firsts-number_all t accesses stride 0 1 t))),
      λ num.
          let at_most =
            uses-number_all t accesses stride 0 1 t num (omega arith) le
              (λ m low. thread_accesses-fits accesses max_threads m some_threads low (omega arith))
              (stride-room accesses max_threads t le_max small) in
          ground arith,
    )
