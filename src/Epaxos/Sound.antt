-- ===== src/Epaxos/Sound.antt =====
-- The invariant of a replica: each logged instance stands in its own place and has one dependence
-- for each replica, and so has every message that was sent.
pub mod Stores
pub mod Handlers
pub mod Replies
pub mod Peers
pub mod Dispatcher
use cmsc818e.Prelude.{
  ℕ, ◌+◌, ◌<◌, ℤ, pos, true, false, ◌&&◌, Option, List, [], ◌∷◌, ◌++◌, none, some, ◌≡◌, refl, ◌⊎◌,
  inl, inr, ap, sym, ◌∙◌, arith, ltb, ◌==◌, if◌then◌else◌, length, get_elem?, Result, ok, panic,
  negsuc, ok-injective, and_then, and_then-eq-ok, All, All-append, Bool-cases,
}
use mathlib.Core.Path.{subst}
use cmsc818e.Epaxos.Messages.{
  Instance, Message, preaccept, preacceptreply, accept, acceptreply, commit, PeerRequest,
}
use cmsc818e.Epaxos.State.{Log, Replica, Cmd, send, for_each}
use cmsc818e.Epaxos.State.View.{entry_at, Writes}
use cmsc818e.Epaxos.State.{peer_request}
use cmsc818e.Epaxos.Init.{range}
use cmsc818e.Epaxos.Cluster.{IsCluster}

abbrev pub IsPlaced : ℕ → List Log → Type 0
IsPlaced n logs =
    (rep slot : ℕ) (inst : Instance)
    → entry_at logs rep slot ≡ some inst
    → (inst.rep ≡ pos rep) × (inst.slot ≡ pos slot) × (length inst.deps ≡ n)

-- What a replica relies on in a message; an ACCEPT is logged under its sender.
abbrev pub IsWellFormed : ℕ → ℤ → Message → Type 0
IsWellFormed n from (preaccept inst) = length inst.deps ≡ n
IsWellFormed n from (preacceptreply reply) = Unit {0}
IsWellFormed n from (accept inst) = (inst.rep ≡ from) × (length inst.deps ≡ n)
IsWellFormed n from (acceptreply slot) = Unit {0}
IsWellFormed n from (commit inst) = length inst.deps ≡ n

abbrev pub SentWellFormed : ℕ → List (ℕ × PeerRequest) → Type 0
SentWellFormed n = All (λ p. IsWellFormed n p.1.from p.1.message)

-- The invariant of replica `me` of a cluster of `n`.
pub record IsSound (n me : ℕ) (r : Replica) : Type 0 where
  pub size : r.n ≡ n
  pub self : r.me ≡ me
  pub cluster : IsCluster r
  pub placed : IsPlaced r.n r.logs
  pub sent : SentWellFormed r.n r.out

-- A write of an instance in its own place keeps every instance in its own.
pub Writes-IsPlaced :
    (n : ℕ) (logs logs' : List Log) (rep slot : ℕ) (inst : Instance)
    → Writes logs logs' rep slot (some inst)
    → (inst.rep ≡ pos rep) × (inst.slot ≡ pos slot) × (length inst.deps ≡ n)
    → IsPlaced n logs
    → IsPlaced n logs'
Writes-IsPlaced n logs logs' rep slot inst writes own placed r s other at =
    elim (Bool-cases ((rep == r) && (slot == s))) [
      | inl here ↦
          let found : some inst ≡ some other = sym (writes r s ∙ rw here) ∙ at in
          let same : inst ≡ other = cc in
          let rr : rep ≡ r = ground arith in
          let ss : slot ≡ s = ground arith in rw (← same, ← rr, ← ss) own
      | inr away ↦ placed r s other (sym (writes r s ∙ rw away) ∙ at)
    ]

-- What a send keeps, a loop of sends keeps.
pub for_each-keeps {κ} :
    {A : Type 0} (P : Replica → Type κ) (body : A → Cmd (Unit {0}))
    → ((x : A) (r s : Replica) → body x r ≡ ok (tt, s) → P r → P s)
    → (xs : List A) (r s : Replica) → for_each xs body r ≡ ok (tt, s)
    → P r
    → P s
for_each-keeps P body keep [] r s h p = let e : r ≡ s = cc in subst P e p
for_each-keeps P body keep (x ∷ xs) r s h p =
    let ((_, t), first, rest) = and_then-eq-ok (body x r) _ h in
    for_each-keeps P body keep xs t s rest (keep x r t first p)

send-eq-ok :
    (to : ℤ) (m : Message) (r s : Replica)
    → send to m r ≡ ok (tt, s)
    → (i : ℕ) × (s ≡ record r { out = r.out ++ (i, peer_request r m) ∷ [] })
send-eq-ok (negsuc i) m r s h = cc
send-eq-ok (pos i) m r s h = elim (Bool-cases (ltb i r.n)) [
  | inl inside ↦ (i, ap (λ p. p.1) (ok-injective (sym (rw inside at h))))
  | inr outside ↦ let never : panic ≡ ok (tt, s) = rw outside at h in cc
]

-- A state of a replica in which message `m` may be sent.
abbrev pub MaySend : ℕ → ℕ → Message → Replica → Type 0
MaySend n me m r = IsSound n me r × IsWellFormed r.n (pos r.me) m

pub send-MaySend :
    {n me : ℕ} (m : Message) (to : ℤ) (r s : Replica)
    → send to m r ≡ ok (tt, s)
    → MaySend n me m r
    → MaySend n me m s
send-MaySend {n} {me} m to r s h (sound, good) =
    let (i, e) = send-eq-ok to m r s h in
    subst (MaySend n me m) (sym e) (
      record {
        size = sound.size;
        self = sound.self;
        cluster = record {
          me_lt = sound.cluster.me_lt;
          logs_length = sound.cluster.logs_length;
          executed_length = sound.cluster.executed_length;
          all = sound.cluster.all;
        };
        placed = sound.placed;
        sent = All-append _ r.out _ sound.sent (good, tt);
      },
      good,
    )

-- The invariant reads few of the variables.
pub IsSound-frame :
    {n me : ℕ} (r s : Replica)
    → (s.n ≡ r.n) × (s.me ≡ r.me) × (s.all_reps ≡ r.all_reps) × (s.out ≡ r.out)
    → length s.executed ≡ length r.executed
    → length s.logs ≡ length r.logs
    → IsPlaced r.n s.logs
    → IsSound n me r
    → IsSound n me s
IsSound-frame r s (e_n, e_me, e_all, e_out) le ll placed sound = record {
  size = e_n ∙ sound.size;
  self = e_me ∙ sound.self;
  cluster = record {
    me_lt = rw (e_n, e_me) sound.cluster.me_lt;
    logs_length = ll ∙ sound.cluster.logs_length ∙ sym e_n;
    executed_length = le ∙ sound.cluster.executed_length ∙ sym e_n;
    all = e_all ∙ sound.cluster.all ∙ ap (range 0) (sym e_n);
  };
  placed = rw e_n placed;
  sent = rw (e_n, e_out) sound.sent;
}
