-- ===== src/Epaxos/System/Reachable.antt =====
-- The invariant of the replicas in every state that a cluster reaches.
use cmsc818e.Prelude.{
  ℕ, ◌<◌, ℤ, pos, negsuc, Bool, List, [], Option, none, some, ◌≡◌, refl, inl, inr, arith, ◌==◌,
  Bool-cases, Result, length, length-replicate, replicate, get_elem?, get_elem?-replicate,
  All-get_elem?,
}
use mathlib.Core.Path.{subst}
use cmsc818e.Epaxos.Messages.{MsgContainer}
use cmsc818e.Epaxos.State.{Log}
use cmsc818e.Epaxos.State.View.{entry_at, entry_of, log_of}
use cmsc818e.Epaxos.Init.{init}
use cmsc818e.Epaxos.Execute.{Node, Graph}
use cmsc818e.Epaxos.Dispatch.{Event, receive, tick, idle, propose}
use cmsc818e.Epaxos.Sound.{IsPlaced, IsWellFormed, IsSound, IsSound-frame}
use cmsc818e.Epaxos.Sound.Handlers.{run_commit-IsSound}
use cmsc818e.Epaxos.Sound.Dispatcher.{Brings, big_dispatcher-IsSound, reply_all-IsSound}
use cmsc818e.Epaxos.System.{
  Member, System, start, update, peer_container, Received, from_client, from_peer, Offered, Step,
  dispatches, commits, replies, Reaches, starts, steps,
}

empty-IsPlaced : (n : ℕ) → IsPlaced n (replicate n [])
unfolding entry_at
empty-IsPlaced n rep slot inst at =
    nothing (get_elem? (replicate n []) rep) (λ entries e. (get_elem?-replicate n rep [] e).1) at
  where
    nothing :
        (o : Option Log)
        → ((entries : Log) → o ≡ some entries → entries ≡ [])
        → entry_of (log_of o) slot ≡ some inst
        → (inst.rep ≡ pos rep) × (inst.slot ≡ pos slot) × (length inst.deps ≡ n)
    nothing none empty h = cc
    nothing (some entries) empty h =
        let none_there : entry_of [] slot ≡ some inst =
          subst (λ es. entry_of es slot ≡ some inst) (empty entries refl) h in
        cc

init-IsSound : (thrifty : Bool) (n me : ℕ) → me < n → IsSound n me (init thrifty n me)
unfolding init
init-IsSound thrifty n me lt = record {
  size = refl;
  self = refl;
  cluster = record {
    me_lt = lt;
    logs_length = length-replicate {A = Log} n [];
    executed_length = length-replicate {A = ℤ} n (negsuc 0);
    all = refl;
  };
  placed = empty-IsPlaced n;
  sent = tt;
}

abbrev pub AllSound : ℕ → System → Type 0
AllSound n sys = (i : ℕ) → i < n → IsSound n i (sys i).replica

start-AllSound : (thrifty : Bool) (n : ℕ) → AllSound n (start thrifty n)
unfolding start
start-AllSound thrifty n i lt = init-IsSound thrifty n i lt

update-AllSound :
    (n : ℕ) (sys : System) (i : ℕ) (m : Member)
    → IsSound n i m.replica
    → AllSound n sys
    → AllSound n (update sys i m)
update-AllSound n sys i m sound all j lt = elim (Bool-cases (i == j)) [
  | inl here ↦ let same : i ≡ j = ground arith in rw (here, ← same) sound
  | inr away ↦ rw away (all j lt)
]

-- What a sound cluster offers to one of its replicas is well formed.
Received-Brings :
    (n : ℕ) (sys : System) (i : ℕ) (c : MsgContainer)
    → AllSound n sys
    → Received n sys i c
    → Brings n (receive c)
unfolding propose peer_container
Received-Brings n sys i _ all (from_client chan op) req e = cc
Received-Brings n sys i _ all (from_peer j k sent lt at) req e =
    let sound = all j lt in
    let good : IsWellFormed (sys j).replica.n sent.from sent.message =
      All-get_elem? _ (sys j).replica.out k sound.sent at in
    let same : sent ≡ req = cc in
    subst (λ q. IsWellFormed n q.from q.message) same
      (subst (λ m. IsWellFormed m sent.from sent.message) sound.size good)

Offered-Brings :
    (n : ℕ) (sys : System) (i : ℕ) (e : Event) → AllSound n sys → Offered n sys i e → Brings n e
Offered-Brings n sys i (receive c) all offered = Received-Brings n sys i c all offered
Offered-Brings n sys i tick all offered = tt
Offered-Brings n sys i idle all offered = tt

module _ (connections : Graph → List (List Node))
    (sort : (Node → Node → Result Bool) → List Node → Result (List Node)) where
  Step-AllSound : (n : ℕ) (a b : System) → Step connections sort n a b → AllSound n a → AllSound n b
  Step-AllSound n a _ (dispatches i e q s lt offered ran) all =
      update-AllSound n a i (record { replica = s; queue = q })
        (big_dispatcher-IsSound connections sort (a i).queue q e (a i).replica s ran
          (Offered-Brings n a i e all offered) (all i lt))
        all
  Step-AllSound n a _ (commits i k rep slot s lt at ran) all =
      update-AllSound n a i (record { replica = s; queue = (a i).queue })
        (run_commit-IsSound rep slot _ s ran (
          IsSound-frame (a i).replica _ (refl, refl, refl, refl) refl refl (all i lt).placed
            (all i lt)))
        all
  Step-AllSound n a _ (replies i k msgs slot s lt at ran) all =
      update-AllSound n a i (record { replica = s; queue = (a i).queue })
        (reply_all-IsSound slot 0 msgs _ s ran (
          IsSound-frame (a i).replica _ (refl, refl, refl, refl) refl refl (all i lt).placed
            (all i lt)))
        all

  -- In every state that N replicas reach from their start by iterations of the dispatchers, on
  -- operations of clients, messages of peers in any order and ticks, and by the goroutines of
  -- commits and replies, each replica is sound: it keeps the shape of the cluster, logs each
  -- instance in its own place with N dependences, and has sent only well-formed messages.
  pub Reaches-AllSound :
      (thrifty : Bool) (n : ℕ) (sys : System)
      → Reaches connections sort thrifty n sys
      → AllSound n sys
  Reaches-AllSound thrifty n _ starts = start-AllSound thrifty n
  Reaches-AllSound thrifty n _ (steps {a} {b} reached step) =
      Step-AllSound n a b step (Reaches-AllSound thrifty n a reached)
