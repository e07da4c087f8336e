-- ===== src/Majority/Once.antt =====
-- handlePreacceptReply, message after message: when the commit of a slot is sent, and how often.
use cmsc818e.Prelude.{
  ℕ, suc, ◌+◌, ◌*◌, ◌≤◌, ◌<◌, ℤ, pos, Bool, true, false, ◌&&◌, ◌||◌, List, [], ◌∷◌, ◌≡◌, ◌≢◌, ◌⊎◌,
  refl, sym, ap, ◌∙◌, inl, inr, arith, leb, eqb_ℤ, eqb_ℤ_iff, Bool-cases, Option-cases, Option,
  none, some,
}
use mathlib.Core.Path.{subst, ap₂}
use cmsc818e.Majority.{
  commit, PeerRequest, Replica, insert, to_others, count_of, count_reply, reply_for,
  handle_preaccept_reply, executed,
}
use cmsc818e.Majority.Sent.{
  bit, is_some, commits_to, replies_to, preaccept_replies, commits_to-append, commits_to-to_others,
  IsAgreed, eqb_ℤ_self,
}

module _ (to : ℕ) (slot : ℤ) where
  abbrev sent : Replica → ℕ
  sent r = commits_to to slot r.out

  count_reply-sent :
      (z : ℤ) (r : Replica)
      → to < r.n
      → to ≢ r.me
      → sent (count_reply z r)
        ≡ sent r + bit (leb r.n ((count_of (r.reply_count z) + 1) * 2 + 1) && eqb_ℤ z slot)
  unfolding count_reply
  count_reply-sent z r lt other =
      elim (Bool-cases (leb r.n ((count_of (r.reply_count z) + 1) * 2 + 1))) [
        | inl quorum ↦
            let low : leb 0 to ≡ true = ground arith in
            let high : leb (suc to) (0 + r.n) ≡ true = ground arith in
            let req : PeerRequest = record {
              from = pos r.me;
              message = commit (record { rep = pos r.me; slot = z; state = executed });
            } in
            rw quorum (
              commits_to-append to slot r.out (to_others r.me 0 r.n req)
              ∙ ap (λ c. commits_to to slot r.out + c)
                  (commits_to-to_others r.me to slot req 0 r.n other ∙ rw (low, high) refl))
        | inr few ↦ rw few (omega arith)
      ]

  count_reply-n : (z : ℤ) (r : Replica) → (count_reply z r).n ≡ r.n
  unfolding count_reply
  count_reply-n z r = elim (Bool-cases (leb r.n ((count_of (r.reply_count z) + 1) * 2 + 1))) [
    | inl quorum ↦ rw quorum refl
    | inr few ↦ rw few refl
  ]

  count_reply-me : (z : ℤ) (r : Replica) → (count_reply z r).me ≡ r.me
  unfolding count_reply
  count_reply-me z r = elim (Bool-cases (leb r.n ((count_of (r.reply_count z) + 1) * 2 + 1))) [
    | inl quorum ↦ rw quorum refl
    | inr few ↦ rw few refl
  ]

  insert_self : {V : Type 0} (m : ℤ → Option V) (k : ℤ) (v : Option V) → insert m k v k ≡ v
  insert_self m k v = rw (eqb_ℤ_self k) refl

  insert_other :
      {V : Type 0} (m : ℤ → Option V) (k j : ℤ) (v : Option V)
      → eqb_ℤ k j ≡ false
      → insert m k v j ≡ m j
  insert_other m k j v h = rw h refl

  -- The count and the mark of the slot after a reply for it.
  count_reply_marks :
      (r : Replica)
      → r.committed slot ≡ none
      → (count_of ((count_reply slot r).reply_count slot) ≡ count_of (r.reply_count slot) + 1)
        × (is_some ((count_reply slot r).committed slot)
            ≡ leb r.n ((count_of (r.reply_count slot) + 1) * 2 + 1))
  unfolding count_reply
  count_reply_marks r fresh =
      let c = count_of (r.reply_count slot) + 1 in
      let counted = ap count_of (insert_self r.reply_count slot (some c)) in
      elim (Bool-cases (leb r.n (c * 2 + 1))) [
        | inl quorum ↦ rw quorum (counted, ap is_some (insert_self r.committed slot (some true)))
        | inr few ↦ rw few (counted, ap is_some fresh)
      ]

  -- A reply for another slot leaves both.
  count_reply_other :
      (z : ℤ) (r : Replica)
      → eqb_ℤ z slot ≡ false
      → ((count_reply z r).reply_count slot ≡ r.reply_count slot)
        × ((count_reply z r).committed slot ≡ r.committed slot)
  unfolding count_reply
  count_reply_other z r miss =
      let c = count_of (r.reply_count z) + 1 in
      let counted = insert_other r.reply_count z slot (some c) miss in
      elim (Bool-cases (leb r.n (c * 2 + 1))) [
        | inl quorum ↦ rw quorum (counted, insert_other r.committed z slot (some true) miss)
        | inr few ↦ rw few (counted, refl)
      ]

  -- What one reply does to the count, the mark and the commits sent, for any number `more` of later
  -- replies.
  record Step (r s : Replica) (k : ℕ) : Type 0 where
    same_n : s.n ≡ r.n
    same_me : s.me ≡ r.me
    agreed : IsAgreed s slot
    balance :
        (more : ℕ)
        → sent s
            + bit (
                is_some (s.committed slot)
                || leb s.n ((count_of (s.reply_count slot) + more) * 2 + 1))
            + bit (is_some (r.committed slot))
          ≡ sent r
            + bit (is_some (s.committed slot))
            + bit (
                is_some (r.committed slot)
                || leb r.n ((count_of (r.reply_count slot) + (k + more)) * 2 + 1))

  later_quorum :
      (n c more : ℕ) (d : Bool)
      → d ≡ leb n ((c + 1) * 2 + 1)
      → bit (d || leb n ((c + 1 + more) * 2 + 1)) ≡ bit (leb n ((c + (1 + more)) * 2 + 1))
  later_quorum n c more true h = ground arith
  later_quorum n c more false h =
      let same : c + 1 + more ≡ c + (1 + more) = omega arith in rw same refl

  ignored-Step :
      (r : Replica) (k : ℕ)
      → IsAgreed r slot
      → (k ≡ 0) ⊎ (is_some (r.committed slot) ≡ true)
      → Step r r k
  ignored-Step r k agreed (inl none_more) = record {
    same_n = refl;
    same_me = refl;
    agreed = agreed;
    balance = λ more. let e : k + more ≡ more = omega arith in rw e (omega arith);
  }
  ignored-Step r k agreed (inr marked) = record {
    same_n = refl;
    same_me = refl;
    agreed = agreed;
    balance = λ more. rw marked refl;
  }

  counted-Step :
      (r : Replica) → to < r.n → to ≢ r.me → r.committed slot ≡ none → Step r (count_reply slot r) 1
  counted-Step r lt other fresh =
      let s = count_reply slot r in
      let (counted, marked) = count_reply_marks r fresh in
      let n_same = count_reply-n slot r in
      let quorum = leb r.n ((count_of (r.reply_count slot) + 1) * 2 + 1) in
      let sends : sent s ≡ sent r + bit (is_some (s.committed slot)) =
        count_reply-sent slot r lt other
        ∙ ap (λ b. sent r + bit (quorum && b)) (eqb_ℤ_self slot)
        ∙ ap (λ b. sent r + bit b) (and_true quorum ∙ sym marked) in
      let unmarked : is_some (r.committed slot) ≡ false = ap is_some fresh in
      record {
        same_n = n_same;
        same_me = count_reply-me slot r;
        agreed = marked ∙ ap₂ (λ n c. leb n (c * 2 + 1)) (sym n_same) (sym counted);
        balance = λ more.
            let last =
              ap₂ (λ n c. bit (is_some (s.committed slot) || leb n ((c + more) * 2 + 1))) n_same
                counted
              ∙ later_quorum r.n (count_of (r.reply_count slot)) more (is_some (s.committed slot))
                  marked in
            rw unmarked (omega (arith, sends, last));
      }
    where
      and_true : (b : Bool) → b && true ≡ b
      and_true true = refl
      and_true false = refl

  other-Step :
      (z : ℤ) (r : Replica)
      → to < r.n
      → to ≢ r.me
      → eqb_ℤ z slot ≡ false
      → IsAgreed r slot
      → Step r (count_reply z r) 0
  other-Step z r lt other miss agreed =
      let s = count_reply z r in
      let (counted, marked) = count_reply_other z r miss in
      let n_same = count_reply-n z r in
      let quorum = leb r.n ((count_of (r.reply_count z) + 1) * 2 + 1) in
      let sends : sent s ≡ sent r =
        count_reply-sent z r lt other
        ∙ ap (λ b. sent r + bit (quorum && b)) miss
        ∙ ap (λ b. sent r + bit b) (and_false quorum)
        ∙ omega arith in
      record {
        same_n = n_same;
        same_me = count_reply-me z r;
        agreed =
            ap is_some marked
            ∙ agreed
            ∙ ap₂ (λ n c. leb n (count_of c * 2 + 1)) (sym n_same) (sym counted);
        balance = λ more.
            let e : 0 + more ≡ more = omega arith in
            let marks = ap (λ o. bit (is_some o)) marked in
            let last =
              ap₂ (λ d n. bit (is_some d || leb n ((count_of (s.reply_count slot) + more) * 2 + 1)))
                marked n_same
              ∙ ap (λ o. bit (is_some (r.committed slot) || leb r.n ((count_of o + more) * 2 + 1)))
                  counted in
            rw e (omega (arith, sends, last, marks));
      }
    where
      and_false : (b : Bool) → b && false ≡ false
      and_false true = refl
      and_false false = refl

  handle_preaccept_reply-Step :
      (from z : ℤ) (r : Replica)
      → to < r.n
      → to ≢ r.me
      → IsAgreed r slot
      → Step r (handle_preaccept_reply from z r) (bit (eqb_ℤ z slot))
  unfolding handle_preaccept_reply reply_for
  handle_preaccept_reply-Step from z r lt other agreed = elim (Option-cases (r.committed z)) [
    | inr (c, marked) ↦
        subst (λ o. Step r (reply_for o z r) (bit (eqb_ℤ z slot))) (sym marked)
          (ignored-Step r (bit (eqb_ℤ z slot)) agreed (zero_or_marked c marked))
    | inl fresh ↦
        subst (λ o. Step r (reply_for o z r) (bit (eqb_ℤ z slot))) (sym fresh)
          (elim (Bool-cases (eqb_ℤ z slot)) [
            | inl hit ↦
                let same : slot ≡ z = sym ((eqb_ℤ_iff z slot).0 hit) in
                subst (λ b. Step r (count_reply z r) (bit b)) (sym hit)
                  (subst (λ x. Step r (count_reply x r) 1) same
                    (counted-Step r lt other (ap r.committed same ∙ fresh)))
            | inr miss ↦
                subst (λ b. Step r (count_reply z r) (bit b)) (sym miss)
                  (other-Step z r lt other miss agreed)
          ])
  ]
    where
      zero_or_marked :
          (c : Bool)
          → r.committed z ≡ some c
          → (bit (eqb_ℤ z slot) ≡ 0) ⊎ (is_some (r.committed slot) ≡ true)
      zero_or_marked c marked = elim (Bool-cases (eqb_ℤ z slot)) [
        | inl hit ↦
            inr (
              ap (λ x. is_some (r.committed x)) (sym ((eqb_ℤ_iff z slot).0 hit))
              ∙ ap is_some marked)
        | inr miss ↦ inl (ap bit miss)
      ]

  preaccept_replies-sent :
      (ms : List (ℤ × ℤ)) (r : Replica)
      → to < r.n
      → to ≢ r.me
      → IsAgreed r slot
      → sent (preaccept_replies ms r) + bit (is_some (r.committed slot))
        ≡ sent r
          + bit (
              is_some (r.committed slot)
              || leb r.n ((count_of (r.reply_count slot) + replies_to slot ms) * 2 + 1))
  unfolding preaccept_replies
  preaccept_replies-sent [] r lt other agreed =
      let e : count_of (r.reply_count slot) + 0 ≡ count_of (r.reply_count slot) = omega arith in
      rw (e, ← agreed) (ap (λ b. sent r + bit b) (sym (or_self (is_some (r.committed slot)))))
    where
      or_self : (b : Bool) → b || b ≡ b
      or_self true = refl
      or_self false = refl
  preaccept_replies-sent (m ∷ ms) r lt other agreed =
      let s = handle_preaccept_reply m.0 m.1 r in
      let step = handle_preaccept_reply-Step m.0 m.1 r lt other agreed in
      let ih =
        preaccept_replies-sent ms s (omega (arith, lt, step.same_n)) (λ e. other (e ∙ step.same_me))
          step.agreed in
      omega (arith, ih, step.balance (replies_to slot ms))

-- In a cluster of at least two replicas, for a slot that has no answer yet, handlePreacceptReply sends
-- to each other replica exactly one commit of the slot, over any sequence of replies for this slot and
-- others, if its replies and the leader are a majority; and none if they are not.
pub preaccept_replies-once :
    (ms : List (ℤ × ℤ)) (slot : ℤ) (r : Replica) (to : ℕ)
    → 2 ≤ r.n
    → to < r.n
    → to ≢ r.me
    → r.reply_count slot ≡ none
    → r.committed slot ≡ none
    → commits_to to slot (preaccept_replies ms r).out
      ≡ commits_to to slot r.out + bit (leb r.n (replies_to slot ms * 2 + 1))
preaccept_replies-once ms slot r to n_ge lt other none_yet fresh =
    let counted : count_of (r.reply_count slot) ≡ 0 = ap count_of none_yet in
    let unmarked : is_some (r.committed slot) ≡ false = ap is_some fresh in
    let below : leb r.n (count_of (r.reply_count slot) * 2 + 1) ≡ false = ground arith in
    let all = preaccept_replies-sent to slot ms r lt other (unmarked ∙ sym below) in
    let e : 0 + replies_to slot ms ≡ replies_to slot ms = omega arith in
    let last =
      ap₂ (λ d c. bit (d || leb r.n ((c + replies_to slot ms) * 2 + 1))) unmarked counted
      ∙ ap (λ c. bit (leb r.n (c * 2 + 1))) e in
    let zero_bit : bit (is_some (r.committed slot)) ≡ 0 = ap bit unmarked in
    omega (arith, all, last, zero_bit)
