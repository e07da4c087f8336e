-- ===== src/Epaxos/Execute/Frame.antt =====
-- The variables of a replica that executeSome leaves as they are.
use cmsc818e.Prelude.{
  ℕ, ℤ, pos, Bool, true, false, List, [], ◌∷◌, ◌++◌, Option, none, some, ◌≡◌, refl, ◌∙◌, ap,
  if◌then◌else◌, length, length-set, eqb_ℤ, Result, ok, and_then-eq-ok, ok-injective, index, assign,
  assign-eq-ok, deref, replicate,
}
use mathlib.Core.Path.{subst}
use cmsc818e.Epaxos.Messages.{Instance, MsgContainer}
use cmsc818e.Epaxos.State.{Replica, Cmd, pure, ◌>>=◌, lift, log_at, log_assign}
use cmsc818e.Epaxos.State.Inversion.{lift-eq-ok, >>=-eq-ok}
use cmsc818e.Epaxos.State.View.{log_assign-Stored}
use cmsc818e.Epaxos.Execute.{
  Node, Graph, Returned, fire, fire_trigger, notify, execute, execute_ops, is_later, set_last,
  note_executed, deps_decided, run_ready, run_node, visit_inst, visit_node, run_scc, run_sccs,
  sort_all, graph_of_logs, execute_some, is_committed,
}
use cmsc818e.Epaxos.Execute.Steps.{after_execution}

pub record Framed (r s : Replica) : Type 0 where
  pub same_n : s.n ≡ r.n
  pub same_me : s.me ≡ r.me
  pub same_reps : s.all_reps ≡ r.all_reps
  pub same_out : s.out ≡ r.out
  pub same_executed : length s.executed ≡ length r.executed
  pub same_logs : length s.logs ≡ length r.logs

Framed-refl : (r : Replica) → Framed r r
Framed-refl r = record {
  same_n = refl;
  same_me = refl;
  same_reps = refl;
  same_out = refl;
  same_executed = refl;
  same_logs = refl;
}

Framed-trans : (r s t : Replica) → Framed r s → Framed s t → Framed r t
Framed-trans r s t a b = record {
  same_n = b.same_n ∙ a.same_n;
  same_me = b.same_me ∙ a.same_me;
  same_reps = b.same_reps ∙ a.same_reps;
  same_out = b.same_out ∙ a.same_out;
  same_executed = b.same_executed ∙ a.same_executed;
  same_logs = b.same_logs ∙ a.same_logs;
}

-- A command that leaves them, from every state.
abbrev Frames : {A : Type 0} → Cmd A → Type 0
Frames {A} m = (r s : Replica) (a : A) → m r ≡ ok (a, s) → Framed r s

module _ {A : Type 0} where
  Frames-pure : (x : A) → Frames (pure x)
  Frames-pure x r s a h = subst (Framed r) (ap (λ p. p.1) (ok-injective h)) (Framed-refl r)

  Frames-if : (b : Bool) (m k : Cmd A) → Frames m → Frames k → Frames (if b then m else k)
  Frames-if true m k hm hk = hm
  Frames-if false m k hm hk = hk

module _ {A B : Type 0} where
  Frames-lift : (m : Result A) (f : A → Cmd B) → ((a : A) → Frames (f a)) → Frames (lift m >>= f)
  Frames-lift m f k r s b h = let (a, read, rest) = lift-eq-ok m f r h in k a r s b rest

  Frames->>= : (m : Cmd A) (f : A → Cmd B) → Frames m → ((a : A) → Frames (f a)) → Frames (m >>= f)
  Frames->>= m f km kf r s b h =
      let (a, t, first, rest) = >>=-eq-ok m f r h in
      Framed-trans r t s (km r t a first) (kf a t s b rest)

fire-Frames : (o : Option (List (List MsgContainer))) (slot : ℤ) → Frames (fire o slot)
unfolding fire
fire-Frames none slot r s a h = cc
fire-Frames (some []) slot r s a h = cc
fire-Frames (some (q ∷ qs)) slot r s a h =
    subst (Framed r) (ap (λ p. p.1) (ok-injective h)) (record {
      same_n = refl;
      same_me = refl;
      same_reps = refl;
      same_out = refl;
      same_executed = refl;
      same_logs = refl;
    })

notify-Frames : (serves mine : Bool) (slot : ℤ) → Frames (notify serves mine slot)
unfolding notify fire_trigger
notify-Frames true true slot r s a h = fire-Frames (r.triggers slot) slot r s a h
notify-Frames true false slot r s a h = Frames-pure tt r s a h
notify-Frames false mine slot r s a h = Frames-pure tt r s a h

set_last-Frames : (n : Node) (later : Bool) → Frames (set_last n later)
unfolding set_last
set_last-Frames n false r s a h = Frames-pure tt r s a h
set_last-Frames n true r s a h =
    let (last, written, e) = and_then-eq-ok (assign r.executed (pos n.rep) n.slot) _ h in
    let (i, same_i, lt, set_to) = assign-eq-ok r.executed (pos n.rep) n.slot written in
    subst (Framed r) (ap (λ p. p.1) (ok-injective e)) (record {
      same_n = refl;
      same_me = refl;
      same_reps = refl;
      same_out = refl;
      same_executed = ap length set_to ∙ length-set r.executed i n.slot;
      same_logs = refl;
    })

note_executed-Frames : (n : Node) → Frames (note_executed n)
unfolding note_executed
note_executed-Frames n r s a h =
    let (last, read, h1) = lift-eq-ok (index r.executed (pos n.rep)) _ r h in
    let (later, tested, h2) = lift-eq-ok (is_later r.logs n last) (set_last n) r h1 in
    set_last-Frames n later r s a h2

execute-Frames : (rep : ℕ) (slot : ℤ) (inst : Instance) → Frames (execute rep slot inst)
unfolding execute
execute-Frames rep slot inst r s a h =
    let new = after_execution inst r.kvmap in
    let (logs, written, h1) = lift-eq-ok (log_assign r.logs (pos rep) slot new) _ r h in
    let r1 : Replica = record r { logs = logs; kvmap = (execute_ops inst.ops r.kvmap).1 } in
    let first : Framed r r1 = record {
      same_n = refl;
      same_me = refl;
      same_reps = refl;
      same_out = refl;
      same_executed = refl;
      same_logs = (log_assign-Stored r.logs (pos rep) slot new written).same_length;
    } in
    Framed-trans r r1 s first (
      Frames->>= (notify r.server_mode (eqb_ℤ (pos r.me) inst.rep) inst.slot) (λ _. pure new)
        (notify-Frames r.server_mode (eqb_ℤ (pos r.me) inst.rep) inst.slot) (λ _. Frames-pure new)
        r1 s a h1)

run_ready-Frames :
    (n : Node) (inst : Instance) (ret : Returned) (b : Bool) → Frames (run_ready n inst ret b)
unfolding run_ready
run_ready-Frames n inst ret false = Frames-pure (ret, true)
run_ready-Frames n inst ret true =
    Frames->>= (execute n.rep n.slot inst) _ (execute-Frames n.rep n.slot inst) (λ inst'.
      Frames-lift (index ret (pos n.rep)) _ (λ ran.
        Frames-lift (assign ret (pos n.rep) (ran ++ inst' ∷ [])) _ (λ ret'.
          Frames->>= (note_executed n) _ (note_executed-Frames n)
            (λ _. Frames-pure (ret', false)))))

run_node-Frames : (n : Node) (inst : Instance) (ret : Returned) → Frames (run_node n inst ret)
unfolding run_node
run_node-Frames n inst ret r =
    Frames-lift (deps_decided r.logs 0 inst.deps) (run_ready n inst ret)
      (run_ready-Frames n inst ret) r

visit_inst-Frames :
    (n : Node) (inst : Instance) (ret : Returned) (b : Bool) → Frames (visit_inst n inst ret b)
unfolding visit_inst
visit_inst-Frames n inst ret false = Frames-pure (ret, false)
visit_inst-Frames n inst ret true = run_node-Frames n inst ret

visit_node-Frames : (n : Node) (ret : Returned) → Frames (visit_node n ret)
unfolding visit_node
visit_node-Frames n ret r =
    Frames-lift (log_at r.logs (pos n.rep) n.slot) _
      (λ entry.
        Frames-lift (deref entry) _
          (λ inst. visit_inst-Frames n inst ret (is_committed inst.state)))
      r

run_scc-Frames : (scc : List Node) (ret : Returned) → Frames (run_scc scc ret)
unfolding run_scc
run_scc-Frames [] ret = Frames-pure (ret, false)
run_scc-Frames (n ∷ ns) ret = Frames->>= (visit_node n ret) _ (visit_node-Frames n ret) (λ res.
    Frames-if res.1 (pure (res.0, true)) (run_scc ns res.0) (Frames-pure (res.0, true))
      (run_scc-Frames ns res.0))

run_sccs-Frames : (sccs : List (List Node)) (ret : Returned) → Frames (run_sccs sccs ret)
unfolding run_sccs
run_sccs-Frames [] ret = Frames-pure ret
run_sccs-Frames (scc ∷ sccs) ret = Frames->>= (run_scc scc ret) _ (run_scc-Frames scc ret) (λ res.
    Frames-if res.1 (pure res.0) (run_sccs sccs res.0) (Frames-pure res.0)
      (run_sccs-Frames sccs res.0))

pub execute_some-Framed :
    (connections : Graph → List (List Node))
    → (sort : (Node → Node → Result Bool) → List Node → Result (List Node)) (r s : Replica)
    → (ret : Returned) → execute_some connections sort r ≡ ok (ret, s)
    → Framed r s
unfolding execute_some
execute_some-Framed connections sort r s ret h =
    let (graph, built, h1) = lift-eq-ok (graph_of_logs r.logs 0 r.logs) _ r h in
    let (ordered, sorted, h2) = lift-eq-ok (sort_all sort r.logs (connections graph)) _ r h1 in
    run_sccs-Frames ordered (replicate r.n []) r s ret h2
