-- ===== src/Clients.antt =====
-- The clients of the replicated stores, sylan/p4/partB/client/client.go and sylan/p4/partA/client/client.go: what
-- they send, and to which server. A key that is the number i in hexadecimal is `hex_key i`; the value of an access
-- of a blast, which is random, is its number. The goroutines of a blast are lists of what they send, in any order.

pub mod Rounds
pub mod Blast
pub mod Proposals
mod Examples
use cmsc818e.Prelude.{
  ℕ, zero, suc, ◌+◌, ◌*◌, ◌/◌, ◌%◌, ℤ, pos, String, List, [], ◌∷◌, ◌++◌, Option, none, some, Bool,
  true, false, if◌then◌else◌, leb, ltb, ◌==◌, length, str_eq, Result, ok, panic, and_then, index,
  assign,
}
use cmsc818e.Dfs.Chunks.{wrap}

pub data Key : Type 0 where
  hex_key : ℕ → Key
  -- "XXX"
  conflict_key : Key

-- The requests that are sent; a pause sends none.
pub data Request (K V : Type 0) : Type 0 where
  get_request : K → Request K V
  put_request : K → V → Request K V
  del_request : K → Request K V

unfoldable pub min : ℕ → ℕ → ℕ
min a b = if ltb a b then a else b

-- keys[i] = fmt.Sprintf("%X", i), from i on with k rounds left
unfoldable pub hex_keys : (i k : ℕ) → List Key
hex_keys i zero = []
hex_keys i (suc k) = hex_key i ∷ hex_keys (i + 1) k

-- numAccesses*uint64(float64(conflicts)/100.0): the quotient loses its fraction first.
unfoldable pub conflict_count : (accesses conflicts : ℕ) → ℕ
conflict_count accesses conflicts = wrap (accesses * (conflicts / 100))

-- keys[i] = "XXX", from i on with k rounds left
unfoldable pub set_conflicts : (i k : ℕ) → List Key → Result (List Key)
set_conflicts i zero keys = ok keys
set_conflicts i (suc k) keys =
    and_then (assign keys (pos i) conflict_key) (λ keys'. set_conflicts (i + 1) k keys')

unfoldable pub blast_keys : (accesses conflicts : ℕ) → Result (List Key)
unfolding hex_keys conflict_count set_conflicts
blast_keys accesses conflicts =
    set_conflicts 0 (conflict_count accesses conflicts) (hex_keys 0 accesses)

-- The numbers of the accesses that one goroutine makes, from k on; on fuel.
unfoldable pub thread_accesses : (fuel threads accesses k : ℕ) → List ℕ
thread_accesses zero threads accesses k = []
thread_accesses (suc fuel) threads accesses k =
    let next = wrap (k + threads) in
    let rest = thread_accesses fuel threads accesses next in
    if leb accesses next then k ∷ [] else k ∷ rest

-- The goroutines from the i-th on, with `left` of them left.
unfoldable pub all_accesses : (threads accesses i left : ℕ) → List (List ℕ)
unfolding thread_accesses
all_accesses threads accesses i zero = []
all_accesses threads accesses i (suc left) =
    thread_accesses accesses threads accesses i ∷ all_accesses threads accesses (i + 1) left

-- The accesses of a blast by goroutine; a division by maxThreads = 0 panics.
unfoldable pub blast_accesses : (accesses max_threads : ℕ) → Result (List (List ℕ))
unfolding min all_accesses
blast_accesses accesses max_threads =
    let threads = min accesses max_threads in
    if max_threads == 0 then panic else ok (all_accesses threads accesses 0 threads)

-- The server of an access: k%serverModulo, or destRep where it is set.
unfoldable pub destination : (server_modulo dest_rep : ℕ) → ℕ → Result ℕ
destination server_modulo dest_rep k =
    let spread = if server_modulo == 0 then panic else ok (k % server_modulo) in
    if ltb 0 dest_rep then (if server_modulo == 0 then panic else ok dest_rep) else spread

-- One Put of a goroutine; an access to servers[where] panics out of range.
unfoldable pub blast_put : (servers : ℕ) → Result ℕ → List Key → ℕ → Result (ℕ × Request Key ℕ)
blast_put servers to keys k = and_then to (λ server.
    if ltb server servers
    then and_then (index keys (pos k)) (λ key. ok (server, put_request key k))
    else panic)

pub data AccessType : Type 0 where
  write read writeread del pause null : AccessType

pub record ScriptAccess : Type 0 where
  pub server : ℤ
  pub type : AccessType
  pub key : String
  pub value : String

pub record Metrics : Type 0 where
  pub proposals : ℕ
  pub replies : ℕ

abbrev pub request_of : AccessType → String → (value : String) → Option (Request String String)
request_of write key value = some (put_request key value)
request_of read key value = some (get_request key)
request_of del key value = some (del_request key)
request_of _ key value = none

-- servers[acc.R], out of range a panic
unfoldable pub server_of : (servers : List ℕ) → ℤ → Result ℕ
server_of servers rep = index servers rep

unfoldable pub script_access :
    (servers : List ℕ) → ScriptAccess → Result (List (ℕ × Request String String))
unfolding server_of
script_access servers acc = send (request_of acc.type acc.key acc.value)
  where
    send : Option (Request String String) → Result (List (ℕ × Request String String))
    send none = ok []
    send (some req) = and_then (server_of servers acc.server) (λ s. ok ((s, req) ∷ []))

-- The loop over a script of part B, whose replies are counted once, after the loop.
unfoldable pub script_requests :
    (servers : List ℕ) → List ScriptAccess → Result (List (ℕ × Request String String))
unfolding script_access
script_requests servers [] = ok []
script_requests servers (acc ∷ accs) =
    and_then (script_access servers acc)
      (λ sent. and_then (script_requests servers accs) (λ rest. ok (sent ++ rest)))

unfoldable pub run_script :
    (servers : List ℕ) → List ScriptAccess → Result (List (ℕ × Request String String) × Metrics)
unfolding script_requests
run_script servers accs =
    and_then (script_requests servers accs)
      (λ sent. ok (sent, record { proposals = length accs; replies = 1 }))
