-- ===== src/Epaxos/Sound/Replies.antt =====
-- handlePreacceptReply keeps the invariant of a leader.
use cmsc818e.Prelude.{
  ℕ, ◌+◌, ◌*◌, ℤ, pos, true, false, Bool, some, Option, ◌≡◌, refl, inl, inr, ap, sym, ◌∙◌, leb,
  if◌then◌else◌, length, ok, and_then-eq-ok, Bool-cases, deref, ok-injective,
}
use mathlib.Core.Path.{subst}
use cmsc818e.Epaxos.Messages.{Instance, PreacceptReply, accept, accepted}
use cmsc818e.Epaxos.State.{Replica, pure, log_assign, log_at, insert}
use cmsc818e.Epaxos.State.Inversion.{lift-eq-ok}
use cmsc818e.Epaxos.Handlers.{
  handle_preaccept_reply, merge_deps, count_reply, preaccept_quorum, begin_accept, begin_commit,
  absorb_reply, past_preaccept, count_of,
}
use cmsc818e.Epaxos.Handlers.Merge.{merge_deps-Joined}
use cmsc818e.Epaxos.Sound.{IsSound, IsSound-frame}
use cmsc818e.Epaxos.Sound.Stores.{Owns, assign-IsSound, read-Owns, send_thrifty-MaySend}

begin_accept-IsSound :
    {n me : ℕ} (slot : ℤ) (inst : Instance) (r s : Replica)
    → begin_accept slot inst r ≡ ok (tt, s)
    → Owns r.n r.me slot inst
    → IsSound n me r
    → IsSound n me s
unfolding begin_accept
begin_accept-IsSound slot inst r s h owns sound =
    let new : Instance = record inst { state = accepted } in
    let (logs, written, sends) = lift-eq-ok (log_assign r.logs (pos r.me) slot new) _ r h in
    let sound' = assign-IsSound r logs r.me slot new written owns sound in
    let r1 = record r { logs = logs; reply_count = insert r.reply_count inst.slot (some 0) } in
    let sound1 =
      IsSound-frame (record r { logs = logs }) r1 (refl, refl, refl, refl) refl refl sound'.placed
        sound' in
    (send_thrifty-MaySend (accept new) r1 s sends (sound1, (owns.0, owns.2))).0

preaccept_quorum-IsSound :
    {n me : ℕ} (slot : ℤ) (inst : Instance) (r s : Replica)
    → preaccept_quorum slot inst r ≡ ok (tt, s)
    → Owns r.n r.me slot inst
    → IsSound n me r
    → IsSound n me s
unfolding preaccept_quorum begin_commit
preaccept_quorum-IsSound {n} {me} slot inst r s h owns sound = split inst.changed h
  where
    split :
        (changed : Bool)
        → (if changed then begin_accept slot inst else begin_commit slot inst) r ≡ ok (tt, s)
        → IsSound n me s
    split true g = begin_accept-IsSound slot inst r s g owns sound
    split false g =
        subst (IsSound n me) (ap (λ p. p.1) (ok-injective g))
          (IsSound-frame r _ (refl, refl, refl, refl) refl refl sound.placed sound)

absorb_reply-places :
    (n : ℕ) (inst new : Instance) (req : PreacceptReply)
    → absorb_reply n inst req ≡ ok new
    → (new.rep ≡ inst.rep) × (new.slot ≡ inst.slot) × (length new.deps ≡ length inst.deps)
unfolding absorb_reply
absorb_reply-places n inst new req h = elim (Bool-cases req.changed) [
  | inl yes_changed ↦
      let ((ds, differ), merged, done) =
        and_then-eq-ok (merge_deps n inst.deps req.deps) _ (rw yes_changed at h) in
      let len = (merge_deps-Joined n inst.deps req.deps ds differ merged).same_length in
      let e = ok-injective done in
      (ap (λ i. i.rep) (sym e), ap (λ i. i.slot) (sym e), ap (λ i. length i.deps) (sym e) ∙ len)
  | inr not_changed ↦
      let e = ok-injective (rw not_changed at h) in
      (ap (λ i. i.rep) (sym e), ap (λ i. i.slot) (sym e), ap (λ i. length i.deps) (sym e))
]

count_reply-IsSound :
    {n me : ℕ} (from : ℤ) (req : PreacceptReply) (inst : Instance) (e : Option Instance)
    (r s : Replica)
    → count_reply from req inst r ≡ ok (tt, s)
    → log_at r.logs (pos r.me) req.slot ≡ ok e
    → deref e ≡ ok inst
    → IsSound n me r
    → IsSound n me s
unfolding count_reply
count_reply-IsSound {n} {me} from req inst e r s h read filled sound =
    let (new, absorbed, h1) = lift-eq-ok (absorb_reply r.n inst req) _ r h in
    let (logs, written, h2) = lift-eq-ok (log_assign r.logs (pos r.me) req.slot new) _ r h1 in
    let (own_rep, own_slot, own_deps) = read-Owns r r.me req.slot e inst read filled sound in
    let (same_rep, same_slot, same_deps) = absorb_reply-places r.n inst new req absorbed in
    let owns : Owns r.n r.me req.slot new =
      (same_rep ∙ own_rep, same_slot ∙ own_slot, same_deps ∙ own_deps) in
    let sound' = assign-IsSound r logs r.me req.slot new written owns sound in
    let r1 = record r {
      logs = logs;
      reply_count = insert r.reply_count req.slot (some (count_of (r.reply_count req.slot) + 1));
    } in
    let sound1 : IsSound n me r1 =
      IsSound-frame (record r { logs = logs }) r1 (refl, refl, refl, refl) refl refl sound'.placed
        sound' in
    quorum (leb r.n (count_of (r1.reply_count new.slot) * 2 + 1)) r1 new h2 owns sound1
  where
    quorum :
        (reached : Bool) (t : Replica) (new : Instance)
        → (if reached then preaccept_quorum req.slot new else pure tt) t ≡ ok (tt, s)
        → Owns t.n t.me req.slot new
        → IsSound n me t
        → IsSound n me s
    quorum true t new g owns sound1 = preaccept_quorum-IsSound req.slot new t s g owns sound1
    quorum false t new g owns sound1 = subst (IsSound n me) (ap (λ p. p.1) (ok-injective g)) sound1

pub handle_preaccept_reply-IsSound :
    {n me : ℕ} (from : ℤ) (req : PreacceptReply) (r s : Replica)
    → handle_preaccept_reply from req r ≡ ok (tt, s)
    → IsSound n me r
    → IsSound n me s
unfolding handle_preaccept_reply
handle_preaccept_reply-IsSound {n} {me} from req r s h sound =
    let (e, read, h1) = lift-eq-ok (log_at r.logs (pos r.me) req.slot) _ r h in
    let (inst, filled, h2) = lift-eq-ok (deref e) _ r h1 in
    elim (Bool-cases (past_preaccept inst.state)) [
      | inl late ↦
          let same : r ≡ s = ap (λ p. p.1) (ok-injective (rw late at h2)) in
          subst (IsSound n me) same sound
      | inr early ↦ count_reply-IsSound from req inst e r s (rw early at h2) read filled sound
    ]
