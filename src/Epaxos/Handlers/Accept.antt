-- ===== src/Epaxos/Handlers/Accept.antt =====
-- handleAcceptReply, message after message: when it starts the commit of a slot, and how often.
use cmsc818e.Prelude.{
  ℕ, ◌+◌, ◌*◌, ◌≤◌, ℤ, Bool, true, false, ◌&&◌, List, [], ◌∷◌, ◌++◌, ◌≡◌, refl, sym, ap, ◌∙◌, inl,
  inr, arith, leb, ◌==◌, eqb_ℤ, eqb_ℤ_iff, Bool-cases, ok, Option, some,
}
use mathlib.Core.Path.{subst, ap₂}
use cmsc818e.Epaxos.State.{Replica, Cmd, for_each, insert}
use cmsc818e.Epaxos.Handlers.{count_of, is_true, handle_accept_reply}

abbrev pub bit : Bool → ℕ
bit true = 1
bit false = 0

-- How often a commit of the slot is in a list of started goroutines.
abbrev pub starts_of : ℕ → ℤ → List (ℕ × ℤ) → ℕ
starts_of me slot [] = 0
starts_of me slot (p ∷ ps) = bit ((p.0 == me) && eqb_ℤ p.1 slot) + starts_of me slot ps

-- How many of the replies, pairs of sender and slot, are for the slot.
abbrev pub replies_to : ℤ → List (ℤ × ℤ) → ℕ
replies_to slot [] = 0
replies_to slot (m ∷ ms) = bit (eqb_ℤ m.1 slot) + replies_to slot ms

abbrev pub accept_replies : List (ℤ × ℤ) → Cmd (Unit {0})
accept_replies ms = for_each ms (λ m. handle_accept_reply m.0 m.1)

starts_of-append :
    (me : ℕ) (slot : ℤ) (ps qs : List (ℕ × ℤ))
    → starts_of me slot (ps ++ qs) ≡ starts_of me slot ps + starts_of me slot qs
starts_of-append me slot [] qs = omega arith
starts_of-append me slot (p ∷ ps) qs = omega (arith, starts_of-append me slot ps qs)

-- The slot is marked as committed when its count has reached a majority.
abbrev IsAgreed : Replica → ℤ → Type 0
IsAgreed r slot = is_true (r.committed slot) ≡ leb r.n (count_of (r.reply_count slot) * 2 + 1)

-- k replies for the slot were counted, and its commit was started where its mark was set.
record Advanced (r s : Replica) (slot : ℤ) (k : ℕ) : Type 0 where
  same_n : s.n ≡ r.n
  same_me : s.me ≡ r.me
  count : count_of (s.reply_count slot) ≡ count_of (r.reply_count slot) + k
  agreed : IsAgreed s slot
  started :
      starts_of s.me slot s.pending + bit (is_true (r.committed slot))
      ≡ starts_of r.me slot r.pending + bit (is_true (s.committed slot))

Advanced-trans :
    {r s t : Replica} {slot : ℤ} {j k : ℕ}
    → Advanced r s slot j
    → Advanced s t slot k
    → Advanced r t slot (j + k)
Advanced-trans a b = record {
  same_n = b.same_n ∙ a.same_n;
  same_me = b.same_me ∙ a.same_me;
  count = omega (arith, a.count, b.count);
  agreed = b.agreed;
  started = omega (arith, a.started, b.started);
}

eqb_ℤ_self : (z : ℤ) → eqb_ℤ z z ≡ true
eqb_ℤ_self z = (eqb_ℤ_iff z z).1 refl

insert_self : {V : Type 0} (m : ℤ → Option V) (k : ℤ) (v : Option V) → insert m k v k ≡ v
insert_self m k v = rw (eqb_ℤ_self k) refl

insert_other :
    {V : Type 0} (m : ℤ → Option V) (k j : ℤ) (v : Option V)
    → eqb_ℤ k j ≡ false
    → insert m k v j ≡ m j
insert_other m k j v h = rw h refl

-- The replica after one more reply was counted, and after the commit was started too.
abbrev counted : ℤ → Replica → Replica
counted z r = record r {
  reply_count = insert r.reply_count z (some (count_of (r.reply_count z) + 1));
}

abbrev committing : ℤ → Replica → Replica
committing z r = record (counted z r) {
  committed = insert r.committed z (some true);
  pending = r.pending ++ (r.me, z) ∷ [];
}

counted-Advanced :
    (slot : ℤ) (r : Replica)
    → is_true (r.committed slot) ≡ leb r.n ((count_of (r.reply_count slot) + 1) * 2 + 1)
    → Advanced r (counted slot r) slot 1
counted-Advanced slot r h =
    let c = insert_self r.reply_count slot (some (count_of (r.reply_count slot) + 1)) in
    record {
      same_n = refl;
      same_me = refl;
      count = ap count_of c;
      agreed = h ∙ ap (λ o. leb r.n (count_of o * 2 + 1)) (sym c);
      started = refl;
    }

committing-Advanced :
    (slot : ℤ) (r : Replica)
    → is_true (r.committed slot) ≡ false
    → leb r.n ((count_of (r.reply_count slot) + 1) * 2 + 1) ≡ true
    → Advanced r (committing slot r) slot 1
committing-Advanced slot r fresh quorum =
    let c = insert_self r.reply_count slot (some (count_of (r.reply_count slot) + 1)) in
    let d = insert_self r.committed slot (some true) in
    let mine : (r.me == r.me) ≡ true = ground arith in
    let one : starts_of r.me slot ((r.me, slot) ∷ []) ≡ 1 = rw (mine, eqb_ℤ_self slot) refl in
    let marked : bit (is_true (insert r.committed slot (some true) slot)) ≡ 1 =
      ap (λ o. bit (is_true o)) d in
    let unmarked : bit (is_true (r.committed slot)) ≡ 0 = ap bit fresh in
    record {
      same_n = refl;
      same_me = refl;
      count = ap count_of c;
      agreed = ap is_true d ∙ sym quorum ∙ ap (λ o. leb r.n (count_of o * 2 + 1)) (sym c);
      started =
          omega (
            arith,
            starts_of-append r.me slot r.pending ((r.me, slot) ∷ []),
            one,
            marked,
            unmarked,
          );
    }

-- A reply for another slot.
counted_other :
    (z slot : ℤ) (r : Replica)
    → eqb_ℤ z slot ≡ false
    → IsAgreed r slot
    → Advanced r (counted z r) slot 0
counted_other z slot r other agreed =
    let c = insert_other r.reply_count z slot (some (count_of (r.reply_count z) + 1)) other in
    record {
      same_n = refl;
      same_me = refl;
      count = ap count_of c ∙ omega arith;
      agreed = agreed ∙ ap (λ o. leb r.n (count_of o * 2 + 1)) (sym c);
      started = refl;
    }

committing_other :
    (z slot : ℤ) (r : Replica)
    → eqb_ℤ z slot ≡ false
    → IsAgreed r slot
    → Advanced r (committing z r) slot 0
committing_other z slot r other agreed =
    let c = insert_other r.reply_count z slot (some (count_of (r.reply_count z) + 1)) other in
    let d = insert_other r.committed z slot (some true) other in
    let mine : (r.me == r.me) ≡ true = ground arith in
    let none_more : starts_of r.me slot ((r.me, z) ∷ []) ≡ 0 = rw (mine, other) refl in
    let same : bit (is_true (insert r.committed z (some true) slot))
        ≡ bit (is_true (r.committed slot)) =
      ap (λ o. bit (is_true o)) d in
    record {
      same_n = refl;
      same_me = refl;
      count = ap count_of c ∙ omega arith;
      agreed = ap is_true d ∙ agreed ∙ ap (λ o. leb r.n (count_of o * 2 + 1)) (sym c);
      started =
          omega (arith, starts_of-append r.me slot r.pending ((r.me, z) ∷ []), none_more, same);
    }

handle_accept_reply_self :
    (from slot : ℤ) (r : Replica)
    → IsAgreed r slot
    → (s : Replica) × (handle_accept_reply from slot r ≡ ok (tt, s)) × Advanced r s slot 1
unfolding handle_accept_reply
handle_accept_reply_self from slot r agreed = elim (Bool-cases (is_true (r.committed slot))) [
  | inl old ↦
      let had : leb r.n (count_of (r.reply_count slot) * 2 + 1) ≡ true = sym agreed ∙ old in
      let has : leb r.n ((count_of (r.reply_count slot) + 1) * 2 + 1) ≡ true = ground arith in
      (counted slot r, rw old refl, counted-Advanced slot r (old ∙ sym has))
  | inr fresh ↦ elim (Bool-cases (leb r.n ((count_of (r.reply_count slot) + 1) * 2 + 1))) [
    | inl quorum ↦
        (committing slot r, rw (fresh, quorum) refl, committing-Advanced slot r fresh quorum)
    | inr few ↦ (counted slot r, rw (fresh, few) refl, counted-Advanced slot r (fresh ∙ sym few))
  ]
]

handle_accept_reply_other :
    (from z slot : ℤ) (r : Replica)
    → eqb_ℤ z slot ≡ false
    → IsAgreed r slot
    → (s : Replica) × (handle_accept_reply from z r ≡ ok (tt, s)) × Advanced r s slot 0
unfolding handle_accept_reply
handle_accept_reply_other from z slot r other agreed = elim (Bool-cases (is_true (r.committed z))) [
  | inl old ↦ (counted z r, rw old refl, counted_other z slot r other agreed)
  | inr fresh ↦ elim (Bool-cases (leb r.n ((count_of (r.reply_count z) + 1) * 2 + 1))) [
    | inl quorum ↦ (committing z r, rw (fresh, quorum) refl, committing_other z slot r other agreed)
    | inr few ↦ (counted z r, rw (fresh, few) refl, counted_other z slot r other agreed)
  ]
]

accept_replies-Advanced :
    (ms : List (ℤ × ℤ)) (slot : ℤ) (r : Replica)
    → IsAgreed r slot
    → (s : Replica) × (accept_replies ms r ≡ ok (tt, s)) × Advanced r s slot (replies_to slot ms)
accept_replies-Advanced [] slot r agreed = (
  r,
  refl,
  record { same_n = refl; same_me = refl; count = omega arith; agreed = agreed; started = refl },
)
accept_replies-Advanced (m ∷ ms) slot r agreed =
    let (s, ran, step) = first in
    let (t, rest, steps) = accept_replies-Advanced ms slot s step.agreed in
    (t, rw ran rest, Advanced-trans step steps)
  where
    first :
        (s : Replica) × (handle_accept_reply m.0 m.1 r ≡ ok (tt, s))
        × Advanced r s slot (bit (eqb_ℤ m.1 slot))
    first = elim (Bool-cases (eqb_ℤ m.1 slot)) [
      | inl hit ↦
          let same : slot ≡ m.1 = sym ((eqb_ℤ_iff m.1 slot).0 hit) in
          let (s, ran, step) = handle_accept_reply_self m.0 slot r agreed in
          (
            s,
            subst (λ z. handle_accept_reply m.0 z r ≡ ok (tt, s)) same ran,
            subst (λ b. Advanced r s slot (bit b)) (sym hit) step,
          )
      | inr other ↦
          let (s, ran, step) = handle_accept_reply_other m.0 m.1 slot r other agreed in
          (s, ran, subst (λ b. Advanced r s slot (bit b)) (sym other) step)
    ]

-- In a cluster of at least two replicas, from a slot whose count is 0 and that is not marked as
-- committed, handleAcceptReply returns on every sequence of replies for this slot and for others.
-- After it the commit of the slot has been started once more, if its replies and the leader are a
-- majority of the replicas, and not otherwise, however many more replies there were.
pub accept_replies-once :
    (ms : List (ℤ × ℤ)) (slot : ℤ) (r : Replica)
    → 2 ≤ r.n
    → count_of (r.reply_count slot) ≡ 0
    → is_true (r.committed slot) ≡ false
    → (s : Replica) × (accept_replies ms r ≡ ok (tt, s))
      × (starts_of s.me slot s.pending
          ≡ starts_of r.me slot r.pending + bit (leb r.n (replies_to slot ms * 2 + 1)))
accept_replies-once ms slot r n_ge none_yet fresh =
    let below : leb r.n (count_of (r.reply_count slot) * 2 + 1) ≡ false = ground arith in
    let (s, ran, all) = accept_replies-Advanced ms slot r (fresh ∙ sym below) in
    let count : count_of (s.reply_count slot) ≡ replies_to slot ms =
      omega (arith, all.count, none_yet) in
    let marked : bit (is_true (s.committed slot)) ≡ bit (leb r.n (replies_to slot ms * 2 + 1)) =
      ap bit (all.agreed ∙ ap₂ (λ n c. leb n (c * 2 + 1)) all.same_n count) in
    let unmarked : bit (is_true (r.committed slot)) ≡ 0 = ap bit fresh in
    (s, ran, omega (arith, all.started, marked, unmarked))
