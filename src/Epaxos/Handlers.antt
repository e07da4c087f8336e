-- ===== src/Epaxos/Handlers.antt =====
-- The message handlers of sylan/p4/partB/replica/replica.go. They run one at a time, from
-- bigDispatcher. A handler takes the fields of its request: the instance, or the reply.
pub mod Propose
pub mod Merge
pub mod Preaccept
pub mod Accept
use cmsc818e.Prelude.{
  ℕ, zero, suc, ℤ, pos, negsuc, Bool, true, false, ◌||◌, List, [], ◌∷◌, ◌++◌, Option, none, some,
  ◌+◌, ◌*◌, ◌%◌, leb, ltb_ℤ, suc_int64, eqb_ℤ, not, if◌then◌else◌, length, Result, ok, panic,
  and_then, index, deref, assign, ◌==◌,
}
use cmsc818e.Epaxos.Messages.{
  Operation, Instance, InstState, initial, preaccepted, accepted, committed, executed,
  PreacceptReply, Message, preaccept, preacceptreply, accept, acceptreply, commit,
}
use cmsc818e.Epaxos.State.{
  Replica, Cmd, pure, ◌>>=◌, ◌>>◌, get, put, lift, for_each, insert, log_at, log_assign, log_store,
  send,
}
use cmsc818e.Epaxos.Conflicts.{find_max_conflict}

unfoldable pub max : ℤ → ℤ → ℤ
max x y = if ltb_ℤ y x then x else y

-- outChannels[i % N] <- msg, for each i of thriftyReps
abbrev pub send_thrifty : Message → Cmd (Unit {0})
send_thrifty m r = for_each r.thrifty_reps (λ i. send (pos (i % r.n)) m) r

unfoldable pub handle_proposition : List Operation → Cmd ℤ
handle_proposition ops = do
  r ← get
  (max_seq, deps) ← lift (find_max_conflict r ops)
  entries ← lift (index r.logs (pos r.me))
  let inst : Instance = record {
    rep = pos r.me;
    slot = pos (length entries);
    seq = suc_int64 max_seq;
    deps = deps;
    state = preaccepted;
    changed = false;
    ops = ops;
  }
  logs ← lift (assign r.logs (pos r.me) (entries ++ some inst ∷ []))
  put (record r { logs = logs })
  send_thrifty (preaccept inst)
  pure inst.slot

-- for i := 0; i < N; i++ { if ds[i] != es[i] { ds[i] = max(ds[i], es[i]) } }, and whether any differed
unfoldable pub merge_deps : ℕ → List ℤ → List ℤ → Result (List ℤ × Bool)
merge_deps zero ds es = ok (ds, false)
merge_deps (suc k) (d ∷ ds) (e ∷ es) =
    and_then (merge_deps k ds es)
      (λ (ds', changed). ok (if eqb_ℤ d e then (d ∷ ds', changed) else (max d e ∷ ds', true)))
merge_deps (suc k) (d ∷ ds) [] = panic
merge_deps (suc k) [] es = panic

-- The instance as it is after the two adjustments of handlePreacceptRequest.
unfoldable pub merge_instance : ℕ → Instance → ℤ → List ℤ → Result Instance
merge_instance n inst max_seq deps =
    let next = suc_int64 max_seq in
    and_then (merge_deps n inst.deps deps) (λ (ds, differ). ok (record inst {
      seq = if eqb_ℤ inst.seq next then inst.seq else max inst.seq next;
      deps = ds;
      changed = inst.changed || not (eqb_ℤ inst.seq next) || differ;
    }))

unfoldable pub handle_preaccept_request : ℤ → Instance → Cmd (Unit {0})
handle_preaccept_request from req = do
  r ← get
  (max_seq, deps) ← lift (find_max_conflict r req.ops)
  inst ← lift (merge_instance r.n req max_seq deps)
  logs ← lift (log_store r.logs inst.rep inst.slot inst)
  put (record r { logs = logs })
  send from (
      preacceptreply
        (record { slot = inst.slot; seq = inst.seq; deps = inst.deps; changed = inst.changed }))

-- The goroutine `commit(rep, slot)`; its pause is no change of state.
unfoldable pub run_commit : ℕ → ℤ → Cmd (Unit {0})
run_commit rep slot = do
  r ← get
  entry ← lift (log_at r.logs (pos rep) slot)
  log_inst ← lift (deref entry)
  let inst : Instance = record log_inst { state = committed }
  logs ← lift (log_assign r.logs (pos rep) slot inst)
  put (record r { logs = logs })
  for_each r.all_reps (λ i. if i == r.me then pure tt else send (pos i) (commit inst))

-- The states in which a leader ignores a late PREACCEPTREPLY.
abbrev pub past_preaccept : InstState → Bool
past_preaccept committed = true
past_preaccept accepted = true
past_preaccept executed = true
past_preaccept _ = false

-- The value of a count that a map may not hold.
abbrev pub count_of : Option ℕ → ℕ
count_of none = 0
count_of (some c) = c

-- What a reply that says Changed does to the leader's instance.
unfoldable pub absorb_reply : ℕ → Instance → PreacceptReply → Result Instance
absorb_reply n inst req =
    if req.changed
    then and_then (merge_deps n inst.deps req.deps)
        (λ (ds, differ). ok (record inst { seq = max inst.seq req.seq; deps = ds; changed = true }))
    else ok inst

-- What happens once a majority has answered: the second phase, or the commit.
unfoldable pub begin_accept : ℤ → Instance → Cmd (Unit {0})
begin_accept slot inst = do
  r ← get
  let inst' : Instance = record inst { state = accepted }
  logs ← lift (log_assign r.logs (pos r.me) slot inst')
  put (record r { reply_count = insert r.reply_count inst.slot (some 0); logs = logs })
  send_thrifty (accept inst')

unfoldable pub begin_commit : ℤ → Instance → Cmd (Unit {0})
begin_commit slot inst r = ok (
  tt,
  record r {
    reply_count = insert r.reply_count inst.slot (some 0);
    committed = insert r.committed slot (some true);
    pending = r.pending ++ (r.me, slot) ∷ [];
  },
)

unfoldable pub preaccept_quorum : ℤ → Instance → Cmd (Unit {0})
preaccept_quorum slot inst = if inst.changed then begin_accept slot inst else begin_commit slot inst

-- One more answer for the slot, counted after the reply has been absorbed.
unfoldable pub count_reply : ℤ → PreacceptReply → Instance → Cmd (Unit {0})
count_reply from req log_inst = do
  r ← get
  let counts = insert r.reply_count req.slot (some (count_of (r.reply_count req.slot) + 1))
  inst ← lift (absorb_reply r.n log_inst req)
  logs ← lift (log_assign r.logs (pos r.me) req.slot inst)
  put (record r { reply_count = counts; logs = logs })
  (if leb r.n (count_of (counts inst.slot) * 2 + 1)
      then preaccept_quorum req.slot inst
      else pure tt)

unfoldable pub handle_preaccept_reply : ℤ → PreacceptReply → Cmd (Unit {0})
handle_preaccept_reply from req = do
  r ← get
  entry ← lift (log_at r.logs (pos r.me) req.slot)
  log_inst ← lift (deref entry)
  (if past_preaccept log_inst.state then pure tt else count_reply from req log_inst)

unfoldable pub handle_accept_request : ℤ → Instance → Cmd (Unit {0})
handle_accept_request from inst = do
  r ← get
  logs ← lift (log_store r.logs from inst.slot inst)
  put (record r { logs = logs })
  send from (acceptreply inst.slot)

abbrev pub is_true : Option Bool → Bool
is_true (some true) = true
is_true _ = false

unfoldable pub handle_accept_reply : ℤ → ℤ → Cmd (Unit {0})
handle_accept_reply from slot = do
  r ← get
  let count = count_of (r.reply_count slot) + 1
  let s : Replica = record r { reply_count = insert r.reply_count slot (some count) }
  put (
      if is_true (r.committed slot)
      then s
      else if leb r.n (count * 2 + 1)
      then record s {
        committed = insert r.committed slot (some true);
        pending = r.pending ++ (r.me, slot) ∷ [];
      }
      else s)

unfoldable pub handle_commit : ℤ → Instance → Cmd (Unit {0})
handle_commit from inst = do
  r ← get
  logs ← lift (log_store r.logs inst.rep inst.slot inst)
  put (record r { logs = logs })
