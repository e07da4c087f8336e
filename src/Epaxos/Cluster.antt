-- ===== src/Epaxos/Cluster.antt =====
-- What main sets up once and no handler changes: the shape of the cluster.
use cmsc818e.Prelude.{
  ℕ, zero, suc, ◌+◌, ◌≤◌, ◌<◌, ◌%◌, List, [], ◌∷◌, ◌≡◌, arith, length, All, get_elem?,
  get_elem?_of_lt, some,
}
use native.Mathlib.Nat.{mod-lt}
use cmsc818e.Epaxos.State.{Log, Replica}
use cmsc818e.Epaxos.Init.{range}

pub record IsCluster (r : Replica) : Type 0 where
  pub me_lt : r.me < r.n
  pub logs_length : length r.logs ≡ r.n
  pub executed_length : length r.executed ≡ r.n
  pub all : r.all_reps ≡ range 0 r.n

pub All-range : (n k j : ℕ) → k + j ≤ n → All (λ i. i < n) (range k j)
All-range n k zero h = tt
All-range n k (suc j) h = (omega arith, All-range n (k + 1) j (omega arith))

-- A remainder by N is a replica.
pub All-mod : (n : ℕ) (is : List ℕ) → 0 < n → All (λ i. i % n < n) is
All-mod n [] h = tt
All-mod n (i ∷ is) h = (mod-lt i h, All-mod n is h)

module _ {r : Replica} (c : IsCluster r) where
  pub all_reps-lt : All (λ i. i < r.n) r.all_reps
  all_reps-lt = rw c.all (All-range r.n 0 r.n (omega arith))

  pub thrifty_reps-lt : All (λ i. i % r.n < r.n) r.thrifty_reps
  thrifty_reps-lt = All-mod r.n r.thrifty_reps (omega (arith, c.me_lt))

  pub my_log : (entries : Log) × (get_elem? r.logs r.me ≡ some entries)
  my_log = get_elem?_of_lt r.logs r.me (omega (arith, c.me_lt, c.logs_length))
