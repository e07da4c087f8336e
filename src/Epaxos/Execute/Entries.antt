-- ===== src/Epaxos/Execute/Entries.antt =====
-- What executeSome leaves of each log entry.
use cmsc818e.Prelude.{
  ℕ, true, List, Option, some, ◌≡◌, refl, sym, ◌∙◌, ◌⊎◌, inl, inr, ◌&&◌, ◌==◌, arith, Bool-cases,
  Result, Bool, ok,
}
use mathlib.Core.Path.{subst}
use cmsc818e.Epaxos.Messages.{Instance, executed}
use cmsc818e.Epaxos.State.{Replica}
use cmsc818e.Epaxos.State.View.{entry_at}
use cmsc818e.Epaxos.Execute.{Node, Graph, Returned, execute_some, is_committed}
use cmsc818e.Epaxos.Execute.Steps.{
  Contents, Runs, Executions, done, next, execute_some-Executions, after_execution,
}

-- A committed instance, executed later under the same number and dependences.
pub record Executed (before after : Option Instance) : Type 0 where
  pub old : Instance
  pub new : Instance
  pub was : before ≡ some old
  pub is : after ≡ some new
  pub was_committed : is_committed old.state ≡ true
  pub is_executed : new.state ≡ executed
  pub same_seq : new.seq ≡ old.seq
  pub same_deps : new.deps ≡ old.deps
  pub same_rep : new.rep ≡ old.rep
  pub same_slot : new.slot ≡ old.slot

abbrev pub Kept : Option Instance → Option Instance → Type 0
Kept before after = (after ≡ before) ⊎ Executed before after

Executed-Executed : (a b c : Option Instance) → Executed a b → Executed b c → Executed a c
Executed-Executed a b c first second =
    let same : some second.old ≡ some first.new = sym second.was ∙ first.is in
    let state : second.old.state ≡ executed = cc in cc

Kept-trans : (a b c : Option Instance) → Kept a b → Kept b c → Kept a c
Kept-trans a b c (inl e) (inl e') = inl (e' ∙ e)
Kept-trans a b c (inl e) (inr x) = inr (subst (λ o. Executed o c) e x)
Kept-trans a b c (inr x) (inl e) = inr (subst (λ o. Executed a o) (sym e) x)
Kept-trans a b c (inr x) (inr y) = inr (Executed-Executed a b c x y)

Runs-Kept :
    {a b : Contents} (run : Runs a b) (rep slot : ℕ)
    → Kept (entry_at a.0 rep slot) (entry_at b.0 rep slot)
Runs-Kept {a} {b} run rep slot = elim (Bool-cases ((run.rep == rep) && (run.slot == slot))) [
  | inl hit ↦
      let at_rep : run.rep ≡ rep = ground arith in
      let at_slot : run.slot ≡ slot = ground arith in
      inr (record {
        old = run.inst;
        new = after_execution run.inst a.1;
        was = rw (← at_rep, ← at_slot) run.here;
        is = run.writes rep slot ∙ rw hit refl;
        was_committed = run.is_ready;
        is_executed = refl;
        same_seq = refl;
        same_deps = refl;
        same_rep = refl;
        same_slot = refl;
      })
  | inr miss ↦ inl (run.writes rep slot ∙ rw miss refl)
]

pub Executions-Kept :
    {a b : Contents}
    → Executions a b
    → (rep slot : ℕ) → Kept (entry_at a.0 rep slot) (entry_at b.0 rep slot)
Executions-Kept {a} {b} (done e) rep slot = inl (rw e refl)
Executions-Kept {a} {b} (next {b = m} run rest) rep slot =
    Kept-trans (entry_at a.0 rep slot) (entry_at m.0 rep slot) (entry_at b.0 rep slot)
      (Runs-Kept run rep slot) (Executions-Kept rest rep slot)

-- A call of executeSome that returns leaves every log entry as it is, or sets it from committed to
-- executed with its replica, slot, number and dependences kept; so nothing is executed twice.
pub execute_some-Kept :
    (connections : Graph → List (List Node))
    → (sort : (Node → Node → Result Bool) → List Node → Result (List Node)) (r s : Replica)
    → {ret : Returned} → execute_some connections sort r ≡ ok (ret, s)
    → (rep slot : ℕ) → Kept (entry_at r.logs rep slot) (entry_at s.logs rep slot)
execute_some-Kept connections sort r s h rep slot =
    Executions-Kept (execute_some-Executions connections sort r s h) rep slot
