-- ===== src/Epaxos/Sound/Handlers.antt =====
-- Every handler keeps the invariant of its replica.
use cmsc818e.Prelude.{
  ℕ, ℤ, pos, pos_part, List, [], ◌∷◌, ◌++◌, some, ◌≡◌, refl, inl, inr, ap, sym, ◌∙◌, arith, ◌==◌,
  if◌then◌else◌, length, ok, and_then-eq-ok, Bool-cases, assign, index, index-eq-ok, deref,
  assign-eq-ok, length-set, ok-injective,
}
use mathlib.Core.Path.{subst}
use cmsc818e.Epaxos.Messages.{
  Operation, Instance, Message, preaccept, accept, acceptreply, commit, committed,
}
use cmsc818e.Epaxos.State.{Replica, pure, send, log_store, log_assign, log_at}
use cmsc818e.Epaxos.State.Inversion.{lift-eq-ok, >>=-eq-ok}
use cmsc818e.Epaxos.State.View.{set-Writes, Stored, log_store-Stored}
use cmsc818e.Epaxos.Conflicts.{find_max_conflict}
use cmsc818e.Epaxos.Conflicts.Total.{find_max_conflict-length}
use cmsc818e.Epaxos.Handlers.Propose.{proposal, entry_of-append}
use cmsc818e.Epaxos.Handlers.{
  handle_proposition, handle_preaccept_request, handle_accept_request, handle_accept_reply,
  handle_commit, run_commit, merge_instance, merge_deps, send_thrifty,
}
use cmsc818e.Epaxos.Handlers.Merge.{merge_deps-Joined}
use cmsc818e.Epaxos.Sound.{
  IsPlaced, IsWellFormed, IsSound, MaySend, send-MaySend, IsSound-frame, for_each-keeps,
}
use cmsc818e.Epaxos.Sound.Stores.{store-IsSound, assign-IsSound, read-Owns, send_thrifty-MaySend}

pub handle_commit-IsSound :
    {n me : ℕ} (from : ℤ) (inst : Instance) (r s : Replica)
    → handle_commit from inst r ≡ ok (tt, s)
    → IsWellFormed r.n from (commit inst)
    → IsSound n me r
    → IsSound n me s
unfolding handle_commit
handle_commit-IsSound {n} {me} from inst r s h good sound =
    let (logs, stored, rest) = lift-eq-ok (log_store r.logs inst.rep inst.slot inst) _ r h in
    let e : record r { logs = logs } ≡ s = cc in
    subst (IsSound n me) e (store-IsSound r logs inst (log_store-Stored _ _ _ _ stored) good sound)

pub handle_accept_request-IsSound :
    {n me : ℕ} (from : ℤ) (inst : Instance) (r s : Replica)
    → handle_accept_request from inst r ≡ ok (tt, s)
    → IsWellFormed r.n from (accept inst)
    → IsSound n me r
    → IsSound n me s
unfolding handle_accept_request
handle_accept_request-IsSound from inst r s h (own, good) sound =
    let (logs, stored, sends) = lift-eq-ok (log_store r.logs from inst.slot inst) _ r h in
    let st =
      subst (λ f. Stored r.logs logs f inst.slot inst) (sym own)
        (log_store-Stored _ _ _ _ stored) in
    (send-MaySend (acceptreply inst.slot) from _ s sends
      (store-IsSound r logs inst st good sound, tt)).0

merge_instance-length :
    (n : ℕ) (req inst : Instance) (m : ℤ) (deps : List ℤ)
    → merge_instance n req m deps ≡ ok inst
    → (inst.rep ≡ req.rep) × (inst.slot ≡ req.slot) × (length inst.deps ≡ length req.deps)
unfolding merge_instance
merge_instance-length n req inst m deps h =
    let ((ds, differ), merged, done) = and_then-eq-ok (merge_deps n req.deps deps) _ h in
    let len = (merge_deps-Joined n req.deps deps ds differ merged).same_length in
    let e = ok-injective done in
    (ap (λ i. i.rep) (sym e), ap (λ i. i.slot) (sym e), ap (λ i. length i.deps) (sym e) ∙ len)

pub handle_preaccept_request-IsSound :
    {n me : ℕ} (from : ℤ) (req : Instance) (r s : Replica)
    → handle_preaccept_request from req r ≡ ok (tt, s)
    → IsWellFormed r.n from (preaccept req)
    → IsSound n me r
    → IsSound n me s
unfolding handle_preaccept_request
handle_preaccept_request-IsSound from req r s h good sound =
    let ((m, deps), found, h1) = lift-eq-ok (find_max_conflict r req.ops) _ r h in
    let (inst, merged, h2) = lift-eq-ok (merge_instance r.n req m deps) _ r h1 in
    let (logs, stored, sends) = lift-eq-ok (log_store r.logs inst.rep inst.slot inst) _ r h2 in
    let (_, _, len) = merge_instance-length r.n req inst m deps merged in
    (send-MaySend _ from _ s sends
      (store-IsSound r logs inst (log_store-Stored _ _ _ _ stored) (len ∙ good) sound, tt)).0

pub handle_accept_reply-IsSound :
    {n me : ℕ} (from slot : ℤ) (r s : Replica)
    → handle_accept_reply from slot r ≡ ok (tt, s)
    → IsSound n me r
    → IsSound n me s
unfolding handle_accept_reply
handle_accept_reply-IsSound from slot r s h sound =
    let logs : s.logs ≡ r.logs = ground arith in
    IsSound-frame r s (ground arith, ground arith, ground arith, ground arith) (ground arith)
      (ap length logs) (subst (IsPlaced r.n) (sym logs) sound.placed) sound

commit_to-MaySend :
    {n me : ℕ} (m : Message) (own i : ℕ) (t u : Replica)
    → (if i == own then pure tt else send (pos i) m) t ≡ ok (tt, u)
    → MaySend n me m t
    → MaySend n me m u
commit_to-MaySend {n} {me} m own i t u sends may = elim (Bool-cases (i == own)) [
  | inl self ↦
      let e : t ≡ u = ap (λ p. p.1) (ok-injective (rw self at sends)) in
      subst (MaySend n me m) e may
  | inr other ↦ send-MaySend m (pos i) t u (rw other at sends) may
]

pub run_commit-IsSound :
    {n me : ℕ} (rep : ℕ) (slot : ℤ) (r s : Replica)
    → run_commit rep slot r ≡ ok (tt, s)
    → IsSound n me r
    → IsSound n me s
unfolding run_commit
run_commit-IsSound {n} {me} rep slot r s h sound =
    let (e, read, h1) = lift-eq-ok (log_at r.logs (pos rep) slot) _ r h in
    let (old, filled, h2) = lift-eq-ok (deref e) _ r h1 in
    let new : Instance = record old { state = committed } in
    let (logs, written, sends) = lift-eq-ok (log_assign r.logs (pos rep) slot new) _ r h2 in
    let owns = read-Owns r rep slot e old read filled sound in
    let sound' = assign-IsSound r logs rep slot new written owns sound in
    (for_each-keeps (MaySend n me (commit new)) _ (commit_to-MaySend (commit new) r.me) r.all_reps
      (record r { logs = logs }) s sends (sound', owns.2)).0

pub handle_proposition-IsSound :
    {n me : ℕ} (ops : List Operation) (slot : ℤ) (r s : Replica)
    → handle_proposition ops r ≡ ok (slot, s)
    → IsSound n me r
    → IsSound n me s
unfolding handle_proposition
handle_proposition-IsSound {n} {me} ops slot r s h sound =
    let (acc, found, h1) = lift-eq-ok (find_max_conflict r ops) _ r h in
    let (entries, read, h2) = lift-eq-ok (index r.logs (pos r.me)) _ r h1 in
    let inst : Instance = proposal r.me (length entries) ops acc in
    let (logs, written, h3) =
      lift-eq-ok (assign r.logs (pos r.me) (entries ++ some inst ∷ [])) _ r h2 in
    let (_, t, sends, done) =
      >>=-eq-ok (send_thrifty (preaccept inst)) _ (record r { logs = logs }) h3 in
    let len =
      find_max_conflict-length r ops acc sound.cluster.all
        (omega (arith, sound.cluster.logs_length)) found in
    let (i, same_i, at) = index-eq-ok r.logs (pos r.me) read in
    let (j, same_j, lt, set_to) = assign-eq-ok r.logs (pos r.me) _ written in
    let ii : i ≡ r.me = sym (ap pos_part same_i) in
    let jj : j ≡ r.me = sym (ap pos_part same_j) in
    let writes =
      set-Writes r.logs r.me (length entries) entries _ (some inst) (rw ii at at)
        (entry_of-append entries inst) in
    let st : Stored r.logs logs inst.rep inst.slot inst = record {
      r = r.me;
      s = length entries;
      at_rep = refl;
      at_slot = refl;
      in_range = omega (arith, sound.cluster.me_lt, sound.cluster.logs_length);
      writes = rw (set_to, jj) writes;
      same_length = rw set_to (length-set r.logs j _);
    } in
    let may =
      send_thrifty-MaySend (preaccept inst) _ t sends
        (store-IsSound r logs inst st len sound, len) in
    subst (IsSound n me) (ap (λ p. p.1) (ok-injective done)) may.0
