-- ===== src/Epaxos/Handlers/Propose.antt =====
-- handleProposition: the instance that a leader logs for its clients' operations.
use cmsc818e.Prelude.{
  ℕ, zero, suc, ◌%◌, ℤ, pos, true, false, List, [], ◌∷◌, ◌++◌, map, none, some, ◌≡◌, refl, inl, inr,
  arith, ◌<ℤ◌, ◌==◌, if◌then◌else◌, max_int64, suc_int64, length, get_elem?, set, All, ok,
}
use cmsc818e.Epaxos.Messages.{Operation, Instance, preaccepted, preaccept}
use cmsc818e.Epaxos.State.{Log, Replica}
use cmsc818e.Epaxos.State.Broadcast.{broadcast, for_each-broadcast}
use cmsc818e.Epaxos.State.View.{entry_at, entry_of, Writes, set-Writes}
use cmsc818e.Epaxos.Cluster.{IsCluster, thrifty_reps-lt, my_log}
use cmsc818e.Epaxos.Conflicts.{ops_conflict, find_max_conflict}
use cmsc818e.Epaxos.Conflicts.Steps.{Holds}
use cmsc818e.Epaxos.Conflicts.Bound.{find_max_conflict-bound}
use cmsc818e.Epaxos.Conflicts.Deps.{Latest, find_max_conflict-deps}
use cmsc818e.Epaxos.Conflicts.Total.{IsFull, find_max_conflict_total}
use cmsc818e.Epaxos.Handlers.{handle_proposition}

-- Every conflicting instance that is logged has a lower number.
abbrev pub IsNewest : List Operation → List Log → ℤ → Type 0
IsNewest ops logs n =
    (rep i : ℕ) (other : Instance)
    → Holds logs rep i other
    → ops_conflict other.ops ops ≡ true
    → other.seq <ℤ n

-- A dependence that is a slot names a logged instance in conflict.
abbrev pub DepsNamed : List Operation → List Log → List ℤ → Type 0
DepsNamed ops logs deps =
    (rep i : ℕ)
    → get_elem? deps rep ≡ some (pos i)
    → (other : Instance) × Holds logs rep i other × (ops_conflict other.ops ops ≡ true)

-- What a replica has logged and sent for a proposal.
pub record Proposed (ops : List Operation) (r s : Replica) (slot : ℕ) (inst : Instance)
    : Type 0 where
  pub unused : entry_at r.logs r.me slot ≡ none
  pub logged : Writes r.logs s.logs r.me slot (some inst)
  pub placed : (inst.rep ≡ pos r.me) × (inst.slot ≡ pos slot)
  pub carries : (inst.ops ≡ ops) × (inst.state ≡ preaccepted) × (inst.changed ≡ false)
  pub newest : IsNewest ops r.logs (pos max_int64) → IsNewest ops r.logs inst.seq
  pub deps_length : length inst.deps ≡ r.n
  pub deps_sound : DepsNamed ops r.logs inst.deps
  pub sent :
      s
      ≡ broadcast (map (λ i. i % r.n) r.thrifty_reps) (preaccept inst) (record r { logs = s.logs })

pub entry_of-append :
    (entries : Log) (inst : Instance) (j : ℕ)
    → entry_of (entries ++ some inst ∷ []) j
      ≡ (if length entries == j then some inst else entry_of entries j)
entry_of-append [] inst zero = refl
entry_of-append [] inst (suc j) = ground arith
entry_of-append (x ∷ entries) inst zero = ground arith
entry_of-append (x ∷ entries) inst (suc j) = ground (arith, entry_of-append entries inst j)

entry_of-length : (entries : Log) → entry_of entries (length entries) ≡ none
entry_of-length [] = refl
entry_of-length (x ∷ entries) = entry_of-length entries

pub suc_int64-lt : (m : ℤ) → m <ℤ pos max_int64 → m <ℤ suc_int64 m
suc_int64-lt m h = ground arith

-- findMaxConflict returns a number below the greatest, if every conflicting one is.
pub Latest-lt :
    (ops : List Operation) (logs : List Log) (acc : ℤ × List ℤ)
    → Latest ops logs acc
    → IsNewest ops logs (pos max_int64)
    → acc.0 <ℤ pos max_int64
Latest-lt ops logs acc (inl e) small = rw e (omega arith)
Latest-lt ops logs acc (inr (rep, i, inst, held, c, e, at)) small =
    omega (arith, rw e at (small rep i inst held c))

-- The instance that handleProposition makes of the two results of findMaxConflict.
abbrev pub proposal : ℕ → ℕ → List Operation → ℤ × List ℤ → Instance
proposal me slot ops (m, deps) = record {
  rep = pos me;
  slot = pos slot;
  seq = suc_int64 m;
  deps = deps;
  state = preaccepted;
  changed = false;
  ops = ops;
}

handle_proposition-runs :
    (r : Replica) (ops : List Operation) (acc : ℤ × List ℤ) (entries : Log)
    → IsCluster r
    → find_max_conflict r ops ≡ ok acc
    → get_elem? r.logs r.me ≡ some entries
    → handle_proposition ops r
      ≡ ok (
        pos (length entries),
        broadcast
            (map (λ i. i % r.n) r.thrifty_reps)
            (preaccept (proposal r.me (length entries) ops acc))
            (record r {
              logs =
                  set r.logs r.me (entries ++ some (proposal r.me (length entries) ops acc) ∷ []);
            }),
      )
unfolding handle_proposition
handle_proposition-runs r ops (m, deps) entries c h at =
    let inst = proposal r.me (length entries) ops (m, deps) in
    let logs = set r.logs r.me (entries ++ some inst ∷ []) in
    rw (h, at)
      (rw (
        for_each-broadcast (λ i. i % r.n) r.thrifty_reps (preaccept inst) (record r { logs = logs })
          (thrifty_reps-lt c)))

-- In a cluster in which no log has a nil entry, handleProposition returns a slot of this replica
-- that was free. It logs there, and nowhere else, a preaccepted instance with the operations: its
-- number exceeds that of every logged instance in conflict, unless one of those has the greatest
-- number of 64 bits; it has N dependences, and those that are slots name logged instances in
-- conflict. The instance is sent to each thrifty replica, and nothing else changes.
pub handle_proposition-Proposed :
    (ops : List Operation) (r : Replica)
    → IsCluster r
    → All IsFull r.logs
    → (slot : ℕ) × (s : Replica) × (inst : Instance) × (handle_proposition ops r ≡ ok (pos slot, s))
      × Proposed ops r s slot inst
unfolding entry_at
handle_proposition-Proposed ops r c full =
    let (acc, found, deps_length) =
      (find_max_conflict_total r ops c.all (omega (arith, c.logs_length))).0 full in
    let (entries, at) = my_log c in
    let inst = proposal r.me (length entries) ops acc in
    let (sound, latest) = find_max_conflict-deps r ops acc c.all found in
    let (_, bound) = find_max_conflict-bound r ops acc.0 acc.1 found in
    (
      length entries,
      _,
      inst,
      handle_proposition-runs r ops acc entries c found at,
      record {
        unused = rw at (entry_of-length entries);
        logged =
            set-Writes r.logs r.me (length entries) entries (entries ++ some inst ∷ []) (some inst)
              at (entry_of-append entries inst);
        placed = (refl, refl);
        carries = (refl, refl, refl);
        newest = λ small rep i other held conflict. omega (
          arith,
          bound rep i other held conflict,
          suc_int64-lt acc.0 (Latest-lt ops r.logs acc latest small),
        );
        deps_length = deps_length;
        deps_sound =
            λ rep i e. let (other, held, conflict, le) = sound rep i e in (other, held, conflict);
        sent = refl;
      },
    )
