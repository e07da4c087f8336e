-- ===== src/Clients/Rounds.antt =====
-- The accesses of one goroutine of a blast in sylan/p4/partB/client/client.go and sylan/p4/partA/client/client.go.
use native.Mathlib.Nat.{div-add-mod, mul-le-mul_left, mul-add, lt_of_mul-lt-mul_left, add-mod_right}
use cmsc818e.Prelude.{
  ℕ, zero, suc, ◌+◌, ◌*◌, ◌/◌, ◌%◌, ◌≤◌, ◌<◌, List, [], ◌∷◌, Bool, true, false, Bool-cases, ◌&&◌,
  if◌then◌else◌, leb, ltb, ◌==◌, ==_iff, ◌≡◌, ◌≢◌, refl, ap, ◌∙◌, inl, inr, arith,
}
use cmsc818e.Dfs.Chunks.{wrap}
use cmsc818e.Clients.{thread_accesses}

abbrev pub count : ℕ → List ℕ → ℕ
count k [] = 0
count k (x ∷ xs) = let rest = count k xs in if x == k then suc rest else rest

pub wrap_of_lt : (n : ℕ) → n < 18446744073709551616 → wrap n ≡ n
unfolding wrap
wrap_of_lt n h = omega arith

-- Numbers of the same remainder are at least the modulus apart.
same_rest-apart : (t m k : ℕ) → 0 < t → m < k → k % t ≡ m % t → m + t ≤ k
same_rest-apart t m k pos_t lt same =
    let a = div-add-mod k t in
    let b = div-add-mod m t in
    let quotients : t * (m / t) < t * (k / t) = omega arith in
    let more : m / t + 1 ≤ k / t = omega (arith, lt_of_mul-lt-mul_left t quotients) in
    omega (arith, mul-le-mul_left t more, mul-add t (m / t) 1)

rest_add : (t m : ℕ) → (m + t) % t ≡ m % t
rest_add t m = add-mod_right m t

-- A goroutine that starts at m makes each access of the remainder of m from there on, once.
abbrev pub is_mine : (t n m k : ℕ) → Bool
is_mine t n m k = leb m k && (k % t == m % t) && ltb k n

is_mine_self : (t n k : ℕ) → k < n → is_mine t n k k ≡ true
is_mine_self t n k h = ground arith

is_mine_next : (t n m k : ℕ) → 0 < t → m ≢ k → is_mine t n (m + t) k ≡ is_mine t n m k
is_mine_next t n m k pos_t other =
    let apart : m < k → k % t ≡ m % t → m + t ≤ k = same_rest-apart t m k pos_t in
    ground (arith, apart, rest_add t m)

is_mine_last :
    (t n m k : ℕ) → 0 < t → leb n (m + t) ≡ true → (m == k) ≡ false → is_mine t n m k ≡ false
is_mine_last t n m k pos_t last other =
    let apart : m < k → k % t ≡ m % t → m + t ≤ k = same_rest-apart t m k pos_t in
    ground (arith, apart)

pub count-thread_accesses :
    (fuel t n m k : ℕ)
    → 0 < t
    → m < n
    → n ≤ m + fuel
    → n + t < 18446744073709551616
    → count k (thread_accesses fuel t n m) ≡ (if is_mine t n m k then 1 else 0)
unfolding thread_accesses
count-thread_accesses zero t n m k pos_t low enough small = absurd (omega arith)
count-thread_accesses (suc fuel) t n m k pos_t low enough small =
    let next : wrap (m + t) ≡ m + t = wrap_of_lt (m + t) (omega arith) in
    let here : (m == k) ≡ true → is_mine t n m k ≡ true = λ e.
      ap (λ x. is_mine t n x k) ((==_iff m k).0 e)
      ∙ is_mine_self t n k (omega (arith, (==_iff m k).0 e)) in
    rw next (elim (Bool-cases (leb n (m + t))) [
      | inl last ↦ rw last (elim (Bool-cases (m == k)) [
        | inl e ↦ rw e (rw (here e) refl)
        | inr e ↦ rw e (rw (is_mine_last t n m k pos_t last e) refl)
      ])
      | inr goes ↦
          let later =
            count-thread_accesses fuel t n (m + t) k pos_t (ground arith) (omega arith) small in
          rw goes (elim (Bool-cases (m == k)) [
            | inl e ↦
                let passed : is_mine t n (m + t) k ≡ false = ground arith in
                rw e (rw (here e) (ap suc (later ∙ rw passed refl)))
            | inr e ↦
                let other : m ≢ k = ground arith in
                rw e (later ∙ ap (λ b. if b then 1 else 0) (is_mine_next t n m k pos_t other))
          ])
    ])
