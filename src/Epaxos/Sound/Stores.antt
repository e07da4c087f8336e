-- ===== src/Epaxos/Sound/Stores.antt =====
-- Writes to the log and sends that keep the invariant of a replica.
use cmsc818e.Prelude.{ℕ, ◌%◌, ℤ, pos, List, Option, ◌≡◌, refl, sym, ◌∙◌, length, ok, deref}
use mathlib.Core.Path.{subst₂}
use cmsc818e.Epaxos.Messages.{Instance, Message}
use cmsc818e.Epaxos.State.{Log, Replica, send, log_assign, log_at}
use cmsc818e.Epaxos.State.View.{Stored, log_at-entry_at, log_assign-Stored}
use cmsc818e.Epaxos.Handlers.{send_thrifty}
use cmsc818e.Epaxos.Sound.{
  IsPlaced, IsSound, MaySend, send-MaySend, IsSound-frame, Writes-IsPlaced, for_each-keeps,
}

pub Stored-IsPlaced :
    (n : ℕ) (logs logs' : List Log) (inst : Instance)
    → Stored logs logs' inst.rep inst.slot inst
    → length inst.deps ≡ n
    → IsPlaced n logs
    → IsPlaced n logs'
Stored-IsPlaced n logs logs' inst st len placed =
    Writes-IsPlaced n logs logs' st.r st.s inst st.writes (st.at_rep, st.at_slot, len) placed

-- A log into which a handler has stored an instance in its own place.
pub store-IsSound :
    {n me : ℕ} (r : Replica) (logs' : List Log) (inst : Instance)
    → Stored r.logs logs' inst.rep inst.slot inst
    → length inst.deps ≡ r.n
    → IsSound n me r
    → IsSound n me (record r { logs = logs' })
store-IsSound r logs' inst st len sound =
    IsSound-frame r (record r { logs = logs' }) (refl, refl, refl, refl) refl st.same_length
      (Stored-IsPlaced r.n r.logs logs' inst st len sound.placed) sound

-- The instance is one of replica `rep` for `slot`.
abbrev pub Owns : ℕ → ℕ → ℤ → Instance → Type 0
Owns n rep slot inst = (inst.rep ≡ pos rep) × (inst.slot ≡ slot) × (length inst.deps ≡ n)

pub assign-IsSound :
    {n me : ℕ} (r : Replica) (logs' : List Log) (rep : ℕ) (slot : ℤ) (inst : Instance)
    → log_assign r.logs (pos rep) slot inst ≡ ok logs'
    → Owns r.n rep slot inst
    → IsSound n me r
    → IsSound n me (record r { logs = logs' })
assign-IsSound r logs' rep slot inst written (own_rep, own_slot, own_deps) sound =
    let st = log_assign-Stored r.logs (pos rep) slot inst written in
    let moved = subst₂ (λ a b. Stored r.logs logs' a b inst) (sym own_rep) (sym own_slot) st in
    store-IsSound r logs' inst moved own_deps sound

-- An instance that was read from the log of a sound replica.
pub read-Owns :
    {n me : ℕ} (r : Replica) (rep : ℕ) (slot : ℤ) (e : Option Instance) (inst : Instance)
    → log_at r.logs (pos rep) slot ≡ ok e
    → deref e ≡ ok inst
    → IsSound n me r
    → Owns r.n rep slot inst
read-Owns r rep slot e inst read filled sound =
    let (k, at_slot, at) = log_at-entry_at r.logs rep slot e read filled in
    let (own_rep, own_slot, own_deps) = sound.placed rep k inst at in
    (own_rep, own_slot ∙ sym at_slot, own_deps)

pub send_thrifty-MaySend :
    {n me : ℕ} (m : Message) (r s : Replica)
    → send_thrifty m r ≡ ok (tt, s)
    → MaySend n me m r
    → MaySend n me m s
send_thrifty-MaySend {n} {me} m r s sends may =
    for_each-keeps (MaySend n me m) (λ i. send (pos (i % r.n)) m)
      (λ i t u e. send-MaySend m (pos (i % r.n)) t u e) r.thrifty_reps r s sends may
