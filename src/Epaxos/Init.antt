-- ===== src/Epaxos/Init.antt =====
-- How main of sylan/p4/partB/replica/replica.go sets the package variables up.
pub mod Quorum
use cmsc818e.Prelude.{
  ℕ, zero, suc, ◌+◌, ◌-◌, ◌/◌, ◌%◌, negsuc, Bool, true, false, List, [], ◌∷◌, none, ◌==◌,
  if◌then◌else◌, replicate, set,
}
use cmsc818e.Epaxos.State.{Replica}

-- 0, 1, …, k - 1
abbrev pub range : ℕ → ℕ → List ℕ
range start zero = []
range start (suc k) = start ∷ range (start + 1) k

-- for i := 1; i <= N/2; i++ { thriftyReps[i-1] = (i + me) % N }, from i on with k rounds left
unfoldable pub next_reps : ℕ → ℕ → ℕ → ℕ → List ℕ
next_reps n me i zero = []
next_reps n me i (suc k) = (i + me) % n ∷ next_reps n me (i + 1) k

-- The branch without thrift: `count` is declared inside the loop, so every replica but this one is
-- written to index 0.
unfoldable pub other_reps : ℕ → List ℕ → List ℕ → List ℕ
other_reps me [] reps = reps
other_reps me (i ∷ is) reps = other_reps me is (if i == me then reps else set reps 0 i)

unfoldable pub thrifty_reps_of : Bool → ℕ → ℕ → List ℕ
unfolding next_reps other_reps
thrifty_reps_of true n me = next_reps n me 1 (n / 2)
thrifty_reps_of false n me = other_reps me (range 0 n) (replicate (n - 1) 0)

-- The state in which the dispatcher starts.
unfoldable pub init : Bool → ℕ → ℕ → Replica
unfolding thrifty_reps_of
init thrifty n me = record {
  n = n;
  me = me;
  server_mode = true;
  thrifty_reps = thrifty_reps_of thrifty n me;
  all_reps = range 0 n;
  logs = replicate n [];
  reply_count = λ _. none;
  committed = λ _. none;
  executed = replicate n (negsuc 0);
  kvmap = λ _. none;
  triggers = λ _. none;
  woken = [];
  pending = [];
  out = [];
  replies = [];
}
