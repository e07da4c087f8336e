-- ===== src/Epaxos/Examples.antt =====
-- A cluster of three replicas, seen from replica 0: its theorems at concrete inputs.
use cmsc818e.Prelude.{
  ℕ, zero, suc, ℤ, pos, negsuc, true, false, List, [], ◌∷◌, none, some, ◌≡◌, refl, sym, arith, ◌≤ℤ◌,
  ◌↔◌, length, get_elem?, ok, All,
}
use mathlib.Core.Path.{subst}
use cmsc818e.Epaxos.Messages.{Operation, Instance, preaccepted, access_write}
use cmsc818e.Epaxos.State.{Replica}
use cmsc818e.Epaxos.Cluster.{IsCluster}
use cmsc818e.Epaxos.Conflicts.{ops_conflict, scan_entry, scan_log, scan_logs, find_max_conflict}
use cmsc818e.Epaxos.Conflicts.Steps.{Holds}
use cmsc818e.Epaxos.Conflicts.Bound.{LogsBound, find_max_conflict-bound}
use cmsc818e.Epaxos.Conflicts.Deps.{DepsSound, Latest, find_max_conflict-deps}
use cmsc818e.Epaxos.Conflicts.Total.{IsFull, find_max_conflict_total}
use cmsc818e.Epaxos.Conflicts.Missed.{find_max_conflict-missed}
use cmsc818e.Epaxos.Handlers.{handle_proposition, handle_preaccept_request}
use cmsc818e.Epaxos.Handlers.Propose.{Proposed, handle_proposition-Proposed}
use cmsc818e.Epaxos.Handlers.Preaccept.{Answered, handle_preaccept_request-Answered}
use cmsc818e.Epaxos.Handlers.Accept.{accept_replies, starts_of, accept_replies-once}
use cmsc818e.Epaxos.Init.{thrifty_reps_of}
use cmsc818e.Epaxos.Init.Quorum.{IsQuorum, thrifty_reps_of-IsQuorum}

abbrev write : Operation
write = record { type = access_write; key = "k"; value = 1 ∷ []; identity = "c" }

abbrev inst_of : ℕ → ℕ → ℕ → List ℤ → Instance
inst_of rep slot seq deps = record {
  rep = pos rep;
  slot = pos slot;
  seq = pos seq;
  deps = deps;
  state = preaccepted;
  changed = false;
  ops = write ∷ [];
}

abbrev no_deps : List ℤ
no_deps = negsuc 0 ∷ negsuc 0 ∷ negsuc 0 ∷ []

-- Replica 0 has logged an instance of its own with number 2, and one of replica 1 with number 1.
abbrev busy : Replica
busy = record {
  n = 3;
  me = 0;
  server_mode = true;
  thrifty_reps = 1 ∷ [];
  all_reps = 0 ∷ 1 ∷ 2 ∷ [];
  logs = (some (inst_of 0 0 2 no_deps) ∷ []) ∷ (some (inst_of 1 0 1 no_deps) ∷ []) ∷ [] ∷ [];
  reply_count = λ _. none;
  committed = λ _. none;
  executed = no_deps;
  kvmap = λ _. none;
  triggers = λ _. none;
  woken = [];
  pending = [];
  out = [];
  replies = [];
}

busy-IsCluster : IsCluster busy
busy-IsCluster = record {
  me_lt = omega arith;
  logs_length = refl;
  executed_length = refl;
  all = refl;
}

busy-IsFull : All IsFull busy.logs
busy-IsFull = (((inst_of 0 0 2 no_deps, refl), tt), (((inst_of 1 0 1 no_deps, refl), tt), (tt, tt)))

-- Both instances conflict with the operation, and only the first becomes a dependence.
abbrev found : ℤ × List ℤ
found = (pos 2, pos 0 ∷ negsuc 0 ∷ negsuc 0 ∷ [])

busy-found : find_max_conflict busy (write ∷ []) ≡ ok found
unfolding find_max_conflict scan_logs scan_log scan_entry
busy-found = refl

find_max_conflict-bound_example : (pos 0 ≤ℤ pos 2) × LogsBound (write ∷ []) busy.logs (pos 2)
find_max_conflict-bound_example =
    find_max_conflict-bound busy (write ∷ []) (pos 2) (pos 0 ∷ negsuc 0 ∷ negsuc 0 ∷ []) busy-found

find_max_conflict-deps_example :
    DepsSound (write ∷ []) busy.logs found × Latest (write ∷ []) busy.logs found
find_max_conflict-deps_example = find_max_conflict-deps busy (write ∷ []) found refl busy-found

find_max_conflict_total_example :
    All IsFull busy.logs
    ↔ ((acc : ℤ × List ℤ) × (find_max_conflict busy (write ∷ []) ≡ ok acc) × (length acc.1 ≡ 3))
find_max_conflict_total_example = find_max_conflict_total busy (write ∷ []) refl (omega arith)

later_numbers :
    (s : ℕ) (other : Instance)
    → Holds busy.logs 1 s other
    → ops_conflict other.ops (write ∷ []) ≡ true
    → other.seq ≤ℤ pos 2
later_numbers zero other (entries, at, e) c =
    let same : inst_of 1 0 1 no_deps ≡ other = cc in rw (← same) (omega arith)
later_numbers (suc s) other (entries, at, e) c =
    let same : some (inst_of 1 0 1 no_deps) ∷ [] ≡ entries = cc in
    let never : get_elem? (some (inst_of 1 0 1 no_deps) ∷ []) (suc s) ≡ some (some other) =
      subst (λ es. get_elem? es (suc s) ≡ some (some other)) (sym same) e in
    cc

find_max_conflict-missed_example : get_elem? (pos 0 ∷ negsuc 0 ∷ negsuc 0 ∷ []) 1 ≡ some (negsuc 0)
find_max_conflict-missed_example =
    find_max_conflict-missed busy (write ∷ []) (pos 2) (pos 0 ∷ negsuc 0 ∷ negsuc 0 ∷ []) 0 1 0
      (inst_of 0 0 2 no_deps) refl busy-found (omega arith) (omega arith)
      (some (inst_of 0 0 2 no_deps) ∷ [], refl, refl) refl later_numbers

handle_proposition-Proposed_example :
    (slot : ℕ) × (s : Replica) × (inst : Instance) × (handle_proposition (write ∷ []) busy
      ≡ ok (pos slot, s))
    × Proposed (write ∷ []) busy s slot inst
handle_proposition-Proposed_example =
    handle_proposition-Proposed (write ∷ []) busy busy-IsCluster busy-IsFull

handle_preaccept_request-Answered_example :
    (s : Replica) × (handle_preaccept_request (pos 2) (inst_of 2 5 1 no_deps) busy ≡ ok (tt, s))
    × Answered 2 (inst_of 2 5 1 no_deps) busy s
handle_preaccept_request-Answered_example =
    handle_preaccept_request-Answered 2 2 5 (inst_of 2 5 1 no_deps) busy busy-IsCluster busy-IsFull
      (omega arith) (omega arith) refl refl (omega arith)

-- The second of two replies starts no second commit.
accept_replies-once_example :
    (s : Replica) × (accept_replies ((pos 1, pos 0) ∷ (pos 2, pos 0) ∷ []) busy ≡ ok (tt, s))
    × (starts_of s.me (pos 0) s.pending ≡ 1)
accept_replies-once_example =
    accept_replies-once ((pos 1, pos 0) ∷ (pos 2, pos 0) ∷ []) (pos 0) busy (omega arith) refl refl

thrifty_reps_of-IsQuorum_example : IsQuorum 5 3 (thrifty_reps_of true 5 3)
thrifty_reps_of-IsQuorum_example = thrifty_reps_of-IsQuorum 5 3 (omega arith)
