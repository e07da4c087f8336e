-- ===== src/Clients/Examples.antt =====
-- A blast of five accesses over two goroutines, the option -C, and a script.
use cmsc818e.Prelude.{
  ℕ, ◌≤◌, List, [], ◌∷◌, ◌≡◌, refl, arith, pos, length, ltb, if◌then◌else◌, ok, panic,
}
use cmsc818e.Dfs.Chunks.{wrap}
use cmsc818e.Clients.{
  min, blast_accesses, blast_keys, hex_key, conflict_key, run_script, read, pause, get_request,
}
use cmsc818e.Clients.Proposals.{blast_numbers, counted_proposals, script_proposals, blast_proposal}
use cmsc818e.Clients.Proposals.Numbers.{uses_all, all_firsts, blast_numbers-distinct}
use cmsc818e.Clients.Blast.{count_all, blast_accesses-once}

five_accesses : blast_accesses 5 2 ≡ ok ((0 ∷ 2 ∷ 4 ∷ []) ∷ (1 ∷ 3 ∷ []) ∷ [])
unfolding blast_accesses wrap
five_accesses = refl

blast_accesses-once_example :
    (runs : List (List ℕ)) × (blast_accesses 5 2 ≡ ok runs)
    × (length runs ≡ min 5 2)
    × ((k : ℕ) → count_all k runs ≡ (if ltb k 5 then 1 else 0))
blast_accesses-once_example = blast_accesses-once 5 2 (omega arith) (omega arith)

-- Half of the accesses should conflict, and none does.
half_conflicts : blast_keys 2 50 ≡ ok (hex_key 0 ∷ hex_key 1 ∷ [])
unfolding blast_keys wrap
half_conflicts = refl

all_conflicts : blast_keys 2 100 ≡ ok (conflict_key ∷ conflict_key ∷ [])
unfolding blast_keys wrap
all_conflicts = refl

too_many_conflicts : blast_keys 2 200 ≡ panic
unfolding blast_keys wrap
too_many_conflicts = refl

-- Two accesses are counted as one reply.
two_accesses :
    run_script (0 ∷ []) (
      record { server = pos 0; type = read; key = "k"; value = "" }
      ∷ record { server = pos 0; type = pause; key = ""; value = "" }
      ∷ [])
    ≡ ok ((0, get_request "k") ∷ [], record { proposals = 2; replies = 1 })
unfolding run_script
two_accesses = refl

-- A goroutine makes up to three accesses, and their numbers are three apart.
five_numbers :
    blast_numbers 5 2 ≡ ok (((0, 4) ∷ (2, 5) ∷ (4, 6) ∷ []) ∷ ((1, 7) ∷ (3, 8) ∷ []) ∷ [])
unfolding blast_numbers wrap
five_numbers = refl

blast_numbers-distinct_example :
    (runs : List (List (ℕ × ℕ))) × (blast_numbers 5 2 ≡ ok runs)
    × (blast_accesses 5 2 ≡ ok (all_firsts runs))
    × ((num : ℕ) → uses_all num runs ≤ 1)
blast_numbers-distinct_example = blast_numbers-distinct 5 2 (omega arith) (omega arith)

-- Five accesses are counted as six proposals.
five_counted : counted_proposals 5 2 ≡ 6
unfolding counted_proposals wrap
five_counted = refl

two_proposals :
    script_proposals (0 ∷ 1 ∷ []) 1 (
      record { server = pos 1; type = pos 0; key = "k"; value = "v" }
      ∷ record { server = pos 0; type = pos 1; key = "k"; value = "" }
      ∷ [])
    ≡ ok (
        (1, record { number = 1; type = pos 0; key = "k"; value = "v" })
        ∷ (0, record { number = 2; type = pos 1; key = "k"; value = "" })
        ∷ [])
unfolding script_proposals wrap
two_proposals = refl

-- The second server of one is out of range.
no_such_server : blast_proposal (0 ∷ []) 2 (hex_key 0 ∷ hex_key 1 ∷ []) (1, 2) ≡ panic
unfolding blast_proposal
no_such_server = refl
