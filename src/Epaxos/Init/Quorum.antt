-- ===== src/Epaxos/Init/Quorum.antt =====
-- The replicas that a thrifty leader writes to.
use cmsc818e.Prelude.{
  ℕ, zero, suc, ◌+◌, ◌-◌, ◌*◌, ◌/◌, ◌%◌, ◌≤◌, ◌<◌, ◌≡◌, ◌≢◌, refl, sym, ◌∙◌, ◌⊎◌, inl, inr, arith,
  Bool-cases, true, ltb, List, some, length, get_elem?,
}
use native.Mathlib.Nat.{mod-eq_of_lt, mod-eq-sub-mod, mod-lt, mod-add-div'}
use cmsc818e.Epaxos.Init.{next_reps, thrifty_reps_of}

-- A list of replicas that, with the leader, makes up a majority of n: distinct, and not the leader.
pub record IsQuorum (n me : ℕ) (reps : List ℕ) : Type 0 where
  pub size : length reps ≡ n / 2
  pub majority : n ≤ length reps * 2 + 1
  pub least : (count : ℕ) → n ≤ count * 2 + 1 → length reps ≤ count
  pub others : (j i : ℕ) → get_elem? reps j ≡ some i → (i < n) × (i ≢ me)
  pub distinct : (j k i : ℕ) → get_elem? reps j ≡ some i → get_elem? reps k ≡ some i → j ≡ k

-- A sum of two numbers below n, modulo n.
mod-add_cases :
    (n x y : ℕ)
    → x < n
    → y < n
    → ((x + y < n) × ((x + y) % n ≡ x + y)) ⊎ ((n ≤ x + y) × ((x + y) % n + n ≡ x + y))
mod-add_cases n x y hx hy = elim (Bool-cases (ltb (x + y) n)) [
  | inl below ↦ inl (ground arith, mod-eq_of_lt (ground arith))
  | inr above ↦
      let le : n ≤ x + y = ground arith in
      let e : (x + y) % n ≡ x + y - n = mod-eq-sub-mod le ∙ mod-eq_of_lt (omega arith) in
      inr (le, omega arith)
]

mod-add_ne : (n x me : ℕ) → 0 < x → x < n → me < n → (x + me) % n ≢ me
mod-add_ne n x me pos_x hx hme e = elim (mod-add_cases n x me hx hme) [
  | inl (lt, same) ↦ omega arith
  | inr (le, same) ↦ omega arith
]

mod-add_injective : (n x y me : ℕ) → x < n → y < n → me < n → (x + me) % n ≡ (y + me) % n → x ≡ y
mod-add_injective n x y me hx hy hme e = elim (mod-add_cases n x me hx hme) [
  | inl (lt, same) ↦ elim (mod-add_cases n y me hy hme) [
    | inl (lt', same') ↦ omega arith
    | inr (le', same') ↦ omega arith
  ]
  | inr (le, same) ↦ elim (mod-add_cases n y me hy hme) [
    | inl (lt', same') ↦ omega arith
    | inr (le', same') ↦ omega arith
  ]
]

length-next_reps : (n me i k : ℕ) → length (next_reps n me i k) ≡ k
unfolding next_reps
length-next_reps n me i zero = refl
length-next_reps n me i (suc k) = omega (arith, length-next_reps n me (i + 1) k)

get_elem?-next_reps :
    (n me i k j : ℕ) {rep : ℕ}
    → get_elem? (next_reps n me i k) j ≡ some rep
    → (j < k) × (rep ≡ (i + j + me) % n)
unfolding next_reps
get_elem?-next_reps n me i zero j h = cc
get_elem?-next_reps n me i (suc k) zero {rep} h =
    let e : i + 0 ≡ i = omega arith in (omega arith, rw e cc)
get_elem?-next_reps n me i (suc k) (suc j) h =
    let (lt, e) = get_elem?-next_reps n me (i + 1) k j h in
    let idx : i + 1 + j ≡ i + suc j = omega arith in (omega arith, rw idx at e)

-- With thrift a replica of the cluster gets N/2 replicas: distinct, other than itself, and enough for
-- a majority with it; so the test `count*2+1 >= N` passes when all of them have answered, not sooner.
pub thrifty_reps_of-IsQuorum : (n me : ℕ) → me < n → IsQuorum n me (thrifty_reps_of true n me)
unfolding thrifty_reps_of
thrifty_reps_of-IsQuorum n me lt =
    let half = mod-add-div' n 2 in
    let rem : n % 2 < 2 = mod-lt n (omega arith) in
    let size = length-next_reps n me 1 (n / 2) in
    record {
      size = size;
      majority = omega (arith, half, rem, size);
      least = λ count h. omega (arith, half, size);
      others = λ j i at_j.
          let (small, e) = get_elem?-next_reps n me 1 (n / 2) j at_j in
          let below : 1 + j < n = omega (arith, half) in
          (
            rw e (mod-lt (1 + j + me) (omega arith)),
            rw e (mod-add_ne n (1 + j) me (omega arith) below lt),
          );
      distinct = λ j k i at_j at_k.
          let (small_j, e_j) = get_elem?-next_reps n me 1 (n / 2) j at_j in
          let (small_k, e_k) = get_elem?-next_reps n me 1 (n / 2) k at_k in
          let same =
            mod-add_injective n (1 + j) (1 + k) me (omega (arith, half)) (omega (arith, half)) lt
              (sym e_j ∙ e_k) in
          omega (arith, same);
    }
