-- ===== src/Majority/Sent.antt =====
-- The commits of a slot among the messages that a replica has sent.
use cmsc818e.Prelude.{
  ℕ, zero, suc, ◌+◌, ◌*◌, ℤ, Bool, true, false, ◌&&◌, List, [], ◌∷◌, ◌++◌, ◌≡◌, ◌≢◌, refl, ap, ◌∙◌,
  inl, inr, arith, leb, ◌==◌, eqb_ℤ, eqb_ℤ_iff, Bool-cases, Option, none, some,
}
use cmsc818e.Majority.{
  Message, preaccept, preacceptreply, accept, acceptreply, commit, PeerRequest, Replica, to_others,
  count_of, handle_preaccept_reply,
}

abbrev pub bit : Bool → ℕ
bit true = 1
bit false = 0

abbrev pub is_some : Option Bool → Bool
is_some none = false
is_some (some c) = true

abbrev pub commits_slot : ℤ → Message → Bool
commits_slot slot (commit inst) = eqb_ℤ inst.slot slot
commits_slot slot (preaccept inst) = false
commits_slot slot (preacceptreply s) = false
commits_slot slot (accept inst) = false
commits_slot slot (acceptreply s) = false

-- How many commits of the slot were sent to replica `to`.
abbrev pub commits_to : ℕ → ℤ → List (ℕ × PeerRequest) → ℕ
commits_to to slot [] = 0
commits_to to slot (m ∷ ms) =
    bit ((m.0 == to) && commits_slot slot m.1.message) + commits_to to slot ms

-- How many of the replies, pairs of sender and slot, are for the slot.
abbrev pub replies_to : ℤ → List (ℤ × ℤ) → ℕ
replies_to slot [] = 0
replies_to slot (m ∷ ms) = bit (eqb_ℤ m.1 slot) + replies_to slot ms

unfoldable pub preaccept_replies : List (ℤ × ℤ) → Replica → Replica
preaccept_replies [] r = r
preaccept_replies (m ∷ ms) r = preaccept_replies ms (handle_preaccept_reply m.0 m.1 r)

pub commits_to-append :
    (to : ℕ) (slot : ℤ) (ms ks : List (ℕ × PeerRequest))
    → commits_to to slot (ms ++ ks) ≡ commits_to to slot ms + commits_to to slot ks
commits_to-append to slot [] ks = omega arith
commits_to-append to slot (m ∷ ms) ks = omega (arith, commits_to-append to slot ms ks)

range_step :
    (i to k : ℕ) (c : Bool)
    → bit ((i == to) && c) + bit (leb (i + 1) to && leb (suc to) (i + 1 + k) && c)
      ≡ bit (leb i to && leb (suc to) (i + suc k) && c)
range_step i to k true = ground arith
range_step i to k false = ground arith

range_skip :
    (i to k : ℕ) (c : Bool)
    → i ≢ to
    → bit (leb (i + 1) to && leb (suc to) (i + 1 + k) && c)
      ≡ bit (leb i to && leb (suc to) (i + suc k) && c)
range_skip i to k true other = ground arith
range_skip i to k false other = ground arith

-- A message to the others reaches a replica once, if it is another one in the range.
pub commits_to-to_others :
    (me to : ℕ) (slot : ℤ) (req : PeerRequest) (i k : ℕ)
    → to ≢ me
    → commits_to to slot (to_others me i k req)
      ≡ bit (leb i to && leb (suc to) (i + k) && commits_slot slot req.message)
unfolding to_others
commits_to-to_others me to slot req i zero other =
    let out : leb i to && leb (suc to) (i + 0) ≡ false = ground arith in rw out refl
commits_to-to_others me to slot req i (suc k) other =
    let ih = commits_to-to_others me to slot req (i + 1) k other in
    elim (Bool-cases (i == me)) [
      | inl self ↦
          rw self
            (ih ∙ range_skip i to k (commits_slot slot req.message) (λ e. other (ground arith)))
      | inr next ↦ rw next (
          ap (λ c. bit ((i == to) && commits_slot slot req.message) + c) ih
          ∙ range_step i to k (commits_slot slot req.message))
    ]

abbrev pub IsAgreed : Replica → ℤ → Type 0
IsAgreed r slot = is_some (r.committed slot) ≡ leb r.n (count_of (r.reply_count slot) * 2 + 1)

pub eqb_ℤ_self : (z : ℤ) → eqb_ℤ z z ≡ true
eqb_ℤ_self z = (eqb_ℤ_iff z z).1 refl
