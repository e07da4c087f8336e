-- ===== src/Majority/Examples.antt =====
-- Three replicas, and two answers to slot 1 at the leader.
use cmsc818e.Prelude.{pos, ◌≡◌, refl, arith, [], ◌∷◌, none}
use cmsc818e.Majority.{Replica}
use cmsc818e.Majority.Sent.{commits_to, preaccept_replies}
use cmsc818e.Majority.Once.{preaccept_replies-once}

abbrev leader : Replica
leader = record {
  n = 3;
  me = 0;
  g_seq = pos 1;
  reply_count = λ _. none;
  committed = λ _. none;
  out = [];
  replies = [];
}

preaccept_replies-once_example :
    commits_to 2 (pos 1) (preaccept_replies ((pos 1, pos 1) ∷ (pos 2, pos 1) ∷ []) leader).out ≡ 1
preaccept_replies-once_example =
    preaccept_replies-once ((pos 1, pos 1) ∷ (pos 2, pos 1) ∷ []) (pos 1) leader 2 (omega arith)
      (omega arith) (λ e. absurd (omega (arith, e))) refl refl
