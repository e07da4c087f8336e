-- ===== src/Epaxos/Handlers/Preaccept.antt =====
-- handlePreacceptRequest: what a replica makes of the instance of a leader.
use cmsc818e.Prelude.{
  ℕ, ◌≤◌, ◌<◌, ℤ, pos, Bool, false, ◌||◌, not, List, [], ◌∷◌, ◌≡◌, refl, arith, ◌≤ℤ◌, eqb_ℤ,
  eqb_ℤ_iff, max_int64, suc_int64, length, ok, All, lt→ltb, if◌then◌else◌,
}
use mathlib.Core.Path.{ap₂, subst₂, ◌∙◌}
use cmsc818e.Epaxos.Messages.{Instance, PreacceptReply, preacceptreply}
use cmsc818e.Epaxos.State.{Replica, log_store}
use cmsc818e.Epaxos.State.Broadcast.{broadcast}
use cmsc818e.Epaxos.State.View.{Stored, log_store-Stored, log_store_of_lt}
use cmsc818e.Epaxos.Cluster.{IsCluster}
use cmsc818e.Epaxos.Conflicts.Bound.{find_max_conflict-bound}
use cmsc818e.Epaxos.Conflicts.Deps.{find_max_conflict-deps}
use cmsc818e.Epaxos.Conflicts.Total.{IsFull, find_max_conflict_total}
use cmsc818e.Epaxos.Handlers.{max, merge_instance, handle_preaccept_request}
use cmsc818e.Epaxos.Handlers.Merge.{
  Joined, merge_deps-Joined, merge_deps_total, le-max_left, le-max_right,
}
use cmsc818e.Epaxos.Handlers.Propose.{IsNewest, DepsNamed, Latest-lt, suc_int64-lt}

-- The leader's instance `req`, and the one that the replica logs and reports.
pub record Adjusted (n : ℕ) (req inst : Instance) (local_seq : ℤ) (local_deps : List ℤ)
    : Type 0 where
  pub same :
      (inst.rep ≡ req.rep)
      × (inst.slot ≡ req.slot)
      × (inst.ops ≡ req.ops)
      × (inst.state ≡ req.state)
  pub seq_grows : req.seq ≤ℤ inst.seq
  pub seq_covers : suc_int64 local_seq ≤ℤ inst.seq
  pub differ : Bool
  pub joined : Joined n req.deps local_deps inst.deps differ
  pub unchanged :
      inst.changed ≡ false
      → (req.changed ≡ false)
        × (req.seq ≡ suc_int64 local_seq)
        × (inst.seq ≡ req.seq)
        × (inst.deps ≡ req.deps)

merge_instance-Adjusted :
    (n : ℕ) (req : Instance) (local_seq : ℤ) (local_deps : List ℤ)
    → n ≤ length req.deps
    → n ≤ length local_deps
    → (inst : Instance) × (merge_instance n req local_seq local_deps ≡ ok inst)
      × Adjusted n req inst local_seq local_deps
unfolding merge_instance
merge_instance-Adjusted n req local_seq local_deps h k =
    let ((ds, differ), merged) = merge_deps_total n req.deps local_deps h k in
    let join = merge_deps-Joined n req.deps local_deps ds differ merged in
    let next = suc_int64 local_seq in
    (
      record req {
        seq = if eqb_ℤ req.seq next then req.seq else max req.seq next;
        deps = ds;
        changed = req.changed || not (eqb_ℤ req.seq next) || differ;
      },
      rw merged,
      record {
        same = (refl, refl, refl, refl);
        seq_grows = ground (arith, le-max_left req.seq next);
        seq_covers = ground (arith, le-max_right req.seq next);
        differ = differ;
        joined = join;
        unchanged = λ e. ground (arith, eqb_ℤ_iff req.seq next);
      },
    )

-- The reply that reports an instance.
abbrev reply_of : Instance → PreacceptReply
reply_of inst = record {
  slot = inst.slot;
  seq = inst.seq;
  deps = inst.deps;
  changed = inst.changed;
}

-- What a replica has logged and answered for a leader's instance.
pub record Answered (from : ℕ) (req : Instance) (r s : Replica) : Type 0 where
  pub inst : Instance
  pub local_seq : ℤ
  pub local_deps : List ℤ
  pub adjusted : Adjusted r.n req inst local_seq local_deps
  pub local_named : DepsNamed req.ops r.logs local_deps
  pub newest : IsNewest req.ops r.logs (pos max_int64) → IsNewest req.ops r.logs inst.seq
  pub stored : Stored r.logs s.logs req.rep req.slot inst
  pub sent : s ≡ broadcast (from ∷ []) (preacceptreply (reply_of inst)) (record r { logs = s.logs })

-- In a cluster in which no log has a nil entry, handlePreacceptRequest handles every request of a
-- replica for one of its slots with N dependences or more. What it logs there, and nowhere else, is
-- the instance with the greater of the two sequence numbers, which exceeds that of every logged
-- instance in conflict unless one of those has the greatest number of 64 bits, and in each place
-- the greater of the leader's dependence and its own, which names a logged instance in conflict.
-- The reply carries these; it says that nothing changed only if both sides agreed on everything.
pub handle_preaccept_request-Answered :
    (from rep slot : ℕ) (req : Instance) (r : Replica)
    → IsCluster r
    → All IsFull r.logs
    → from < r.n
    → rep < r.n
    → req.rep ≡ pos rep
    → req.slot ≡ pos slot
    → r.n ≤ length req.deps
    → (s : Replica) × (handle_preaccept_request (pos from) req r ≡ ok (tt, s))
      × Answered from req r s
unfolding handle_preaccept_request
handle_preaccept_request-Answered from rep slot req r c full lt_from lt_rep at_rep at_slot enough =
    let (acc, found, deps_length) =
      (find_max_conflict_total r req.ops c.all (omega (arith, c.logs_length))).0 full in
    let (sound, latest) = find_max_conflict-deps r req.ops acc c.all found in
    let (_, bound) = find_max_conflict-bound r req.ops acc.0 acc.1 found in
    let (inst, merged, adjusted) =
      merge_instance-Adjusted r.n req acc.0 acc.1 enough (omega arith) in
    let (logs', placed) = log_store_of_lt r.logs rep slot inst (omega (arith, c.logs_length)) in
    let stored : log_store r.logs inst.rep inst.slot inst ≡ ok logs' =
      ap₂ (λ a b. log_store r.logs a b inst) (adjusted.same.0 ∙ at_rep) (adjusted.same.1 ∙ at_slot)
      ∙ placed in
    (
      broadcast (from ∷ []) (preacceptreply (reply_of inst)) (record r { logs = logs' }),
      rw (found, merged, stored, lt→ltb from r.n lt_from),
      record {
        inst = inst;
        local_seq = acc.0;
        local_deps = acc.1;
        adjusted = adjusted;
        local_named =
            λ rep' i e. let (other, held, conflict, le) = sound rep' i e in (other, held, conflict);
        newest = λ small rep' i other held conflict. omega (
          arith,
          bound rep' i other held conflict,
          suc_int64-lt acc.0 (Latest-lt req.ops r.logs acc latest small),
          adjusted.seq_covers,
        );
        stored =
            subst₂ (λ a b. Stored r.logs logs' a b inst) adjusted.same.0 adjusted.same.1
              (log_store-Stored r.logs inst.rep inst.slot inst stored);
        sent = refl;
      },
    )
