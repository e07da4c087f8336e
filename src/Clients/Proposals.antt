-- ===== src/Clients/Proposals.antt =====
-- The proposals of sylan/p4/partA/client/client.go, with the numbers of their identities. The
-- accesses and the keys of a blast are computed as in part B.
pub mod Numbers
use cmsc818e.Prelude.{
  ℕ, zero, suc, ◌+◌, ◌/◌, ◌%◌, ℤ, pos, String, List, [], ◌∷◌, if◌then◌else◌, ltb, ◌==◌, Result, ok,
  panic, and_then, index, length,
}
use cmsc818e.Dfs.Chunks.{wrap}
use cmsc818e.Clients.{Key, min, thread_accesses, blast_keys}

-- A pb.ProposeRequest: its identity is that of the client, followed by `number`.
pub record Proposal (K V : Type 0) : Type 0 where
  pub number : ℕ
  pub type : ℤ
  pub key : K
  pub value : V

-- acc.R, acc.T, acc.K and acc.V
pub record ScriptAccess : Type 0 where
  pub server : ℤ
  pub type : ℤ
  pub key : String
  pub value : String

-- The loop over a script, from the number `mono` on: each access with its server.
unfoldable pub script_proposals :
    (servers : List ℕ) (mono : ℕ) → List ScriptAccess → Result (List (ℕ × Proposal String String))
script_proposals servers mono [] = ok []
script_proposals servers mono (acc ∷ accs) =
    let sent : Proposal String String = record {
      number = mono;
      type = acc.type;
      key = acc.key;
      value = acc.value;
    } in
    and_then (index servers acc.server) (λ to.
      and_then (script_proposals servers (wrap (mono + 1)) accs) (λ rest. ok ((to, sent) ∷ rest)))

-- The accesses of one goroutine with their numbers: mon++ after each but the last.
unfoldable pub number_from : (mon : ℕ) → List ℕ → List (ℕ × ℕ)
number_from mon [] = []
number_from mon (k ∷ ks) = (k, mon) ∷ number_from (wrap (mon + 1)) ks

-- The goroutines from the i-th on, with `left` of them left; mono += stride before each.
unfoldable pub number_all : (threads accesses stride i mono left : ℕ) → List (List (ℕ × ℕ))
unfolding thread_accesses number_from
number_all threads accesses stride i mono zero = []
number_all threads accesses stride i mono (suc left) =
    let mono' = wrap (mono + stride) in
    number_from mono' (thread_accesses accesses threads accesses i)
    ∷ number_all threads accesses stride (i + 1) mono' left

unfoldable pub stride_of : (accesses max_threads : ℕ) → ℕ
stride_of accesses max_threads = accesses / max_threads + 1

-- The accesses of a blast with their numbers, by goroutine; a division by maxThreads = 0 panics.
unfoldable pub blast_numbers : (accesses max_threads : ℕ) → Result (List (List (ℕ × ℕ)))
unfolding min stride_of number_all
blast_numbers accesses max_threads =
    let threads = min accesses max_threads in
    let runs = number_all threads accesses (stride_of accesses max_threads) 0 1 threads in
    if max_threads == 0 then panic else ok runs

-- servers[k%serverModulo].Propose(…), a write of keys[k]
unfoldable pub blast_proposal :
    (servers : List ℕ) (modulo : ℕ) → List Key → ℕ × ℕ → Result (ℕ × Proposal Key ℕ)
blast_proposal servers modulo keys (k, num) =
    let to = if modulo == 0 then panic else index servers (pos (k % modulo)) in
    and_then to (λ server.
      and_then (index keys (pos k))
        (λ key. ok (server, record { number = num; type = pos 0; key = key; value = k })))

-- metrics.Proposals += stride for each goroutine, with k of them left
unfoldable pub add_strides : (stride k proposals : ℕ) → ℕ
add_strides stride zero proposals = proposals
add_strides stride (suc k) proposals = add_strides stride k (wrap (proposals + stride))

-- metrics.Proposals once all goroutines were started
unfoldable pub counted_proposals : (accesses max_threads : ℕ) → ℕ
unfolding min stride_of add_strides
counted_proposals accesses max_threads =
    add_strides (stride_of accesses max_threads) (min accesses max_threads) 0
