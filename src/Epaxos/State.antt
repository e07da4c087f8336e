-- ===== src/Epaxos/State.antt =====
-- The package variables of sylan/p4/partB/replica/replica.go as a record, and commands over it.
-- Go maps are functions into Option; a channel send is an entry of a list, in the order of sending.
pub mod View
pub mod Inversion
pub mod Broadcast
use cmsc818e.Prelude.{
  ℕ, String, ℤ, pos, negsuc, Bool, true, false, List, [], ◌∷◌, ◌++◌, Option, none, some, ◌+◌, ◌-◌,
  leb, ltb, eqb_ℤ, str_eq, if◌then◌else◌, length, replicate, Result, ok, panic, and_then, index,
  assign,
}
use cmsc818e.Epaxos.Messages.{
  Bytes, Operation, Instance, Message, PeerRequest, ProposeReply, MsgContainer,
}

-- The log of one replica: slots that were never filled hold nil.
abbrev pub Log : Type 0
Log = List (Option Instance)

pub record Replica : Type 0 where
  pub n : ℕ
  pub me : ℕ
  pub server_mode : Bool
  pub thrifty_reps : List ℕ
  pub all_reps : List ℕ
  pub logs : List Log
  pub reply_count : ℤ → Option ℕ
  pub committed : ℤ → Option Bool
  pub executed : List ℤ
  pub kvmap : String → Option Bytes
  -- triggers[slot]: a channel, as the queues of the goroutines that wait to receive from it
  pub triggers : ℤ → Option (List (List MsgContainer))
  -- goroutines of batching that were woken and have not replied yet
  pub woken : List (List MsgContainer × ℤ)
  -- goroutines `commit(rep, slot)` that were started and have not run yet
  pub pending : List (ℕ × ℤ)
  -- messages handed to outChannels
  pub out : List (ℕ × PeerRequest)
  -- replies handed to the clients' channels
  pub replies : List (ℕ × ProposeReply)

abbrev pub Cmd : Type 0 → Type 0
Cmd A = Replica → Result (A × Replica)

abbrev pub pure : {A : Type 0} → A → Cmd A
pure a r = ok (a, r)

infixl 5 ◌>>=◌ ◌>>◌
abbrev pub ◌>>=◌ : {A B : Type 0} → Cmd A → (A → Cmd B) → Cmd B
◌>>=◌ m f r = and_then (m r) (λ (a, s). f a s)

abbrev pub ◌>>◌ : {B : Type 0} → Cmd (Unit {0}) → Cmd B → Cmd B
m >> k = m >>= λ _. k

abbrev pub get : Cmd Replica
get r = ok (r, r)

abbrev pub put : Replica → Cmd (Unit {0})
put s r = ok (tt, s)

-- A computation that reads no state, such as an index with a bounds check.
abbrev pub lift : {A : Type 0} → Result A → Cmd A
lift m r = and_then m (λ a. ok (a, r))

abbrev pub for_each : {A : Type 0} → List A → (A → Cmd (Unit {0})) → Cmd (Unit {0})
for_each [] body = pure tt
for_each (x ∷ xs) body = body x >> for_each xs body

-- m[k] = v, for a map over int64 keys and for a map over strings.
abbrev pub insert {ℓ} : {V : Type ℓ} → (ℤ → Option V) → ℤ → Option V → ℤ → Option V
insert m k v j = if eqb_ℤ k j then v else m j

abbrev pub insert_key {ℓ} :
    {V : Type ℓ} → (String → Option V) → String → Option V → String → Option V
insert_key m k v j = if str_eq k j then v else m j

-- logs[rep][slot]
abbrev pub log_at : List Log → ℤ → ℤ → Result (Option Instance)
log_at logs rep slot = and_then (index logs rep) (λ entries. index entries slot)

-- logs[rep][slot] = inst
abbrev pub log_assign : List Log → ℤ → ℤ → Instance → Result (List Log)
log_assign logs rep slot inst =
    and_then (index logs rep)
      (λ entries. and_then (assign entries slot (some inst)) (λ entries'. assign logs rep entries'))

-- A log made long enough for `slot`, the new entries nil. That there is memory for it, and that its
-- length is an int, is left aside.
abbrev pub pad : Log → ℤ → Log
pad entries (pos s) =
    if leb (length entries) s then entries ++ replicate (s + 1 - length entries) none else entries
pad entries (negsuc s) = entries

-- `if len(logs[rep]) <= int(slot) { logs[rep] = append(logs[rep], nil...) }; logs[rep][slot] = inst`
abbrev pub log_store : List Log → ℤ → ℤ → Instance → Result (List Log)
log_store logs rep slot inst = and_then (index logs rep) (λ entries.
    and_then (assign (pad entries slot) slot (some inst)) (λ entries'. assign logs rep entries'))

-- wrapPreacceptRequest and its like: a message from this replica.
abbrev pub peer_request : Replica → Message → PeerRequest
peer_request r m = record { from = pos r.me; message = m }

-- outChannels[to] <- msg, of N channels
abbrev pub send : ℤ → Message → Cmd (Unit {0})
send (pos i) m r =
    if ltb i r.n then ok (tt, record r { out = r.out ++ (i, peer_request r m) ∷ [] }) else panic
send (negsuc i) m r = panic
