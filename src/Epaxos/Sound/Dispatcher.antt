-- ===== src/Epaxos/Sound/Dispatcher.antt =====
-- The invariant over bigDispatcher and the goroutines of batching.
use cmsc818e.Prelude.{
  ℕ, suc, ℤ, pos, Bool, List, [], ◌∷◌, Option, none, some, ◌≡◌, refl, sym, ◌∙◌, ap, inl, inr,
  Result, ok, ok-injective, index, deref, deref-eq-ok, length,
}
use mathlib.Core.Path.{subst}
use cmsc818e.Epaxos.Messages.{Operation, PeerRequest, MsgContainer}
use cmsc818e.Epaxos.State.{Replica, log_at}
use cmsc818e.Epaxos.State.Inversion.{lift-eq-ok, >>=-eq-ok}
use cmsc818e.Epaxos.State.View.{entry_at}
use cmsc818e.Epaxos.Handlers.{handle_proposition}
use cmsc818e.Epaxos.Execute.{Node, Graph, Returned, execute_some}
use cmsc818e.Epaxos.Execute.Entries.{Kept, execute_some-Kept}
use cmsc818e.Epaxos.Execute.Frame.{execute_some-Framed}
use cmsc818e.Epaxos.Dispatch.{
  Event, receive, tick, idle, queue_ops, batching, reply_one, reply_all, flush_queue, receive_msg,
  dispatch_peer, big_dispatcher,
}
use cmsc818e.Epaxos.Sound.{IsPlaced, IsWellFormed, IsSound, IsSound-frame}
use cmsc818e.Epaxos.Sound.Handlers.{handle_proposition-IsSound}
use cmsc818e.Epaxos.Sound.Peers.{dispatch_peer-IsSound}

batching-IsSound :
    {n me : ℕ} (queue : List MsgContainer) (r s : Replica)
    → batching queue r ≡ ok (tt, s)
    → IsSound n me r
    → IsSound n me s
unfolding batching
batching-IsSound {n} {me} queue r s h sound =
    let (ops, read, h1) = lift-eq-ok (queue_ops queue) _ r h in
    let (slot, t, proposed, h2) = >>=-eq-ok (handle_proposition ops) _ r h1 in
    let sound' = handle_proposition-IsSound ops slot r t proposed sound in
    subst (IsSound n me) (ap (λ p. p.1) (ok-injective h2))
      (IsSound-frame t _ (refl, refl, refl, refl) refl refl sound'.placed sound')

flush_queue-IsSound :
    {n me : ℕ} (queue : List MsgContainer) (r s : Replica)
    → flush_queue queue r ≡ ok (tt, s)
    → IsSound n me r
    → IsSound n me s
unfolding flush_queue
flush_queue-IsSound {n} {me} [] r s h sound =
    subst (IsSound n me) (ap (λ p. p.1) (ok-injective h)) sound
flush_queue-IsSound (msg ∷ queue) r s h sound = batching-IsSound (msg ∷ queue) r s h sound

-- An execution moves no instance.
Kept-IsPlaced :
    (r s : Replica)
    → ((rep slot : ℕ) → Kept (entry_at r.logs rep slot) (entry_at s.logs rep slot))
    → IsPlaced r.n r.logs
    → IsPlaced r.n s.logs
Kept-IsPlaced r s kept placed rep slot inst at = split (kept rep slot)
  where
    split :
        Kept (entry_at r.logs rep slot) (entry_at s.logs rep slot)
        → (inst.rep ≡ pos rep) × (inst.slot ≡ pos slot) × (length inst.deps ≡ r.n)
    split (inl same) = placed rep slot inst (sym same ∙ at)
    split (inr x) =
        let (own_rep, own_slot, own_deps) = placed rep slot x.old x.was in
        let it : some x.new ≡ some inst = sym x.is ∙ at in
        let new : x.new ≡ inst = cc in
        rw (← new) (x.same_rep ∙ own_rep, x.same_slot ∙ own_slot, ap length x.same_deps ∙ own_deps)

reply_one-IsSound :
    {n me : ℕ} (slot : ℤ) (idx : ℕ) (chan : Option ℕ) (r s : Replica)
    → reply_one slot idx chan r ≡ ok (tt, s)
    → IsSound n me r
    → IsSound n me s
unfolding reply_one
reply_one-IsSound {n} {me} slot idx none r s h sound =
    subst (IsSound n me) (ap (λ p. p.1) (ok-injective h)) sound
reply_one-IsSound {n} {me} slot idx (some chan) r s h sound =
    let (entry, read, h1) = lift-eq-ok (log_at r.logs (pos r.me) slot) _ r h in
    let (inst, filled, h2) = lift-eq-ok (deref entry) _ r h1 in
    let (op, found, h3) = lift-eq-ok (index inst.ops (pos idx)) _ r h2 in
    subst (IsSound n me) (ap (λ p. p.1) (ok-injective h3))
      (IsSound-frame r _ (refl, refl, refl, refl) refl refl sound.placed sound)

pub reply_all-IsSound :
    {n me : ℕ} (slot : ℤ) (idx : ℕ) (queue : List MsgContainer) (r s : Replica)
    → reply_all slot idx queue r ≡ ok (tt, s)
    → IsSound n me r
    → IsSound n me s
unfolding reply_all
reply_all-IsSound {n} {me} slot idx [] r s h sound =
    subst (IsSound n me) (ap (λ p. p.1) (ok-injective h)) sound
reply_all-IsSound slot idx (e ∷ queue) r s h sound =
    let (_, t, first, rest) = >>=-eq-ok (reply_one slot idx e.client_chan) _ r h in
    reply_all-IsSound slot (suc idx) queue t s rest
      (reply_one-IsSound slot idx e.client_chan r t first sound)

-- What an event brings to a cluster of n: a well-formed message, where a peer sent one.
abbrev pub Brings : ℕ → Event → Type 0
Brings n (receive e) =
    (req : PeerRequest) → e.peer_msg ≡ some req → IsWellFormed n req.from req.message
Brings n tick = Unit {0}
Brings n idle = Unit {0}

receive_msg-IsSound :
    {n me : ℕ} (queue q : List MsgContainer) (e : MsgContainer) (op : Option Operation)
    (r s : Replica)
    → receive_msg queue e op r ≡ ok (q, s)
    → Brings n (receive e)
    → IsSound n me r
    → IsSound n me s
unfolding receive_msg
receive_msg-IsSound {n} {me} queue q e (some op) r s h brings sound =
    subst (IsSound n me) (ap (λ p. p.1) (ok-injective h)) sound
receive_msg-IsSound {n} {me} queue q e none r s h brings sound =
    let (_, t, flushed, h1) = >>=-eq-ok (flush_queue queue) _ r h in
    let sound' = flush_queue-IsSound queue r t flushed sound in
    let (req, filled, h2) = lift-eq-ok (deref e.peer_msg) _ t h1 in
    let (_, u, handled, h3) = >>=-eq-ok (dispatch_peer req.from req.message) _ t h2 in
    let good : IsWellFormed t.n req.from req.message =
      subst (λ k. IsWellFormed k req.from req.message) (sym sound'.size)
        (brings req (deref-eq-ok e.peer_msg filled)) in
    subst (IsSound n me) (ap (λ p. p.1) (ok-injective h3))
      (dispatch_peer-IsSound req.from req.message t u handled good sound')

module _ (connections : Graph → List (List Node))
    (sort : (Node → Node → Result Bool) → List Node → Result (List Node)) where
  execute_some-IsSound :
      {n me : ℕ} (r s : Replica) (ret : Returned)
      → execute_some connections sort r ≡ ok (ret, s)
      → IsSound n me r
      → IsSound n me s
  execute_some-IsSound r s ret h sound =
      let f = execute_some-Framed connections sort r s ret h in
      IsSound-frame r s (f.same_n, f.same_me, f.same_reps, f.same_out) f.same_executed f.same_logs
        (Kept-IsPlaced r s (execute_some-Kept connections sort r s h) sound.placed) sound

  -- One iteration of bigDispatcher, whatever its queue and the case of its select.
  pub big_dispatcher-IsSound :
      {n me : ℕ} (queue q : List MsgContainer) (e : Event) (r s : Replica)
      → big_dispatcher connections sort queue e r ≡ ok (q, s)
      → Brings n e
      → IsSound n me r
      → IsSound n me s
  unfolding big_dispatcher
  big_dispatcher-IsSound queue q (receive e) r s h brings sound =
      receive_msg-IsSound queue q e e.client_op r s h brings sound
  big_dispatcher-IsSound {n} {me} queue q tick r s h brings sound =
      let (ret, t, ran, h1) = >>=-eq-ok (execute_some connections sort) _ r h in
      subst (IsSound n me) (ap (λ p. p.1) (ok-injective h1))
        (execute_some-IsSound r t ret ran sound)
  big_dispatcher-IsSound {n} {me} queue q idle r s h brings sound =
      let (_, t, flushed, h1) = >>=-eq-ok (flush_queue queue) _ r h in
      subst (IsSound n me) (ap (λ p. p.1) (ok-injective h1))
        (flush_queue-IsSound queue r t flushed sound)
