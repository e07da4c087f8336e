-- ===== src/Epaxos/State/Broadcast.antt =====
-- What sending one message to several replicas does.
use cmsc818e.Prelude.{
  ℕ, ◌<◌, pos, List, [], ◌∷◌, ◌++◌, map, ◌≡◌, ◌∙◌, ap, lt→ltb, ok, All, ◌==◌, if◌then◌else◌,
  Bool-cases, inl, inr,
}
use mathlib.Core.List.{append_assoc, append-nil}
use cmsc818e.Epaxos.Messages.{Message}
use cmsc818e.Epaxos.State.{Replica, peer_request, pure, for_each, send}

-- The state after one message has gone to each replica of a list, in order.
abbrev pub broadcast : List ℕ → Message → Replica → Replica
broadcast tos m r = record r { out = r.out ++ map (λ i. (i, peer_request r m)) tos }

pub for_each-broadcast :
    (f : ℕ → ℕ) (tos : List ℕ) (m : Message) (r : Replica)
    → All (λ i. f i < r.n) tos
    → for_each tos (λ i. send (pos (f i)) m) r ≡ ok (tt, broadcast (map f tos) m r)
for_each-broadcast f [] m r h = rw append-nil
for_each-broadcast f (i ∷ tos) m r h = rw (lt→ltb (f i) r.n h.0) (
    for_each-broadcast f tos m (record r { out = r.out ++ (f i, peer_request r m) ∷ [] }) h.1
    ∙ ap (λ o. ok (tt, record r { out = o }))
        (append_assoc r.out ((f i, peer_request r m) ∷ [])
          (map (λ k. (k, peer_request r m)) (map f tos))))

-- The replicas of a list other than this one.
abbrev pub without : ℕ → List ℕ → List ℕ
without me [] = []
without me (i ∷ is) = if i == me then without me is else i ∷ without me is

pub for_each-broadcast_others :
    (tos : List ℕ) (m : Message) (me : ℕ) (r : Replica)
    → All (λ i. i < r.n) tos
    → for_each tos (λ i. if i == me then pure tt else send (pos i) m) r
      ≡ ok (tt, broadcast (without me tos) m r)
for_each-broadcast_others [] m me r h = rw append-nil
for_each-broadcast_others (i ∷ tos) m me r h = elim (Bool-cases (i == me)) [
  | inl self ↦ rw self (for_each-broadcast_others tos m me r h.1)
  | inr other ↦
      rw (other, lt→ltb i r.n h.0)
        (for_each-broadcast_others tos m me (record r { out = r.out ++ (i, peer_request r m) ∷ [] })
            h.1
          ∙ ap (λ o. ok (tt, record r { out = o }))
              (append_assoc r.out ((i, peer_request r m) ∷ [])
                (map (λ k. (k, peer_request r m)) (without me tos))))
]
