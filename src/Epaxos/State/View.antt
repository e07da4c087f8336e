-- ===== src/Epaxos/State/View.antt =====
-- The log as a partial map from replica and slot to instances: what forgets padding and nil.
use cmsc818e.Prelude.{
  ℕ, zero, suc, ◌+◌, ◌-◌, ◌≤◌, ◌<◌, ℤ, pos, negsuc, true, false, ◌&&◌, List, [], ◌∷◌, ◌++◌, Option,
  none, some, ◌≡◌, refl, ◌∙◌, inl, inr, arith, leb, ◌==◌, if◌then◌else◌, length, get_elem?, set,
  replicate, ok, and_then-eq-ok, index, assign, index-eq-ok, deref-eq-ok, assign-eq-ok,
  assign_of_lt, get_elem?-set_self, get_elem?-set_ne, length-append, length-replicate, length-set,
  lt_of_get_elem?, Bool-cases, deref, get_elem?_of_lt,
}
use native.Mathlib.Decide.{ℕ_discrete}
use cmsc818e.Epaxos.Messages.{Instance}
use cmsc818e.Epaxos.State.{Log, log_at, log_assign, log_store, pad}
use cmsc818e.Epaxos.Conflicts.Steps.{Holds}

abbrev pub join : Option (Option Instance) → Option Instance
join none = none
join (some e) = e

abbrev pub entry_of : Log → ℕ → Option Instance
entry_of entries slot = join (get_elem? entries slot)

abbrev pub log_of : Option Log → Log
log_of none = []
log_of (some entries) = entries

-- The instance in slot `slot` of replica `rep`, if there is one.
unfoldable pub entry_at : List Log → ℕ → ℕ → Option Instance
entry_at logs rep slot = entry_of (log_of (get_elem? logs rep)) slot

-- The one change of a write at (rep, slot).
abbrev pub Writes : List Log → List Log → ℕ → ℕ → Option Instance → Type 0
Writes logs logs' rep slot e =
    (r s : ℕ) → entry_at logs' r s ≡ (if (rep == r) && (slot == s) then e else entry_at logs r s)

entry_of-set :
    (entries : Log) (i j : ℕ) (e : Option Instance)
    → i < length entries
    → entry_of (set entries i e) j ≡ (if i == j then e else entry_of entries j)
entry_of-set entries i j e lt = elim (ℕ_discrete i j) [
  | yes same ↦
      let hit : (i == j) ≡ true = ground arith in
      rw hit (rw (← same) (rw (get_elem?-set_self entries i e lt)))
  | no other ↦
      let miss : (i == j) ≡ false = ground arith in
      rw miss (rw (get_elem?-set_ne entries i j e other))
]

pub entry_of-append_none :
    (entries : Log) (k j : ℕ) → entry_of (entries ++ replicate k none) j ≡ entry_of entries j
entry_of-append_none [] zero j = refl
entry_of-append_none [] (suc k) zero = refl
entry_of-append_none [] (suc k) (suc j) = entry_of-append_none [] k j
entry_of-append_none (x ∷ entries) k zero = refl
entry_of-append_none (x ∷ entries) k (suc j) = entry_of-append_none entries k j

pub entry_of-pad : (entries : Log) (z : ℤ) (j : ℕ) → entry_of (pad entries z) j ≡ entry_of entries j
entry_of-pad entries (negsuc s) j = refl
entry_of-pad entries (pos s) j = elim (Bool-cases (leb (length entries) s)) [
  | inl short ↦ rw short (entry_of-append_none entries (s + 1 - length entries) j)
  | inr long ↦ rw long
]

pub set-Writes :
    (logs : List Log) (rep slot : ℕ) (old new : Log) (e : Option Instance)
    → get_elem? logs rep ≡ some old
    → ((s : ℕ) → entry_of new s ≡ (if slot == s then e else entry_of old s))
    → Writes logs (set logs rep new) rep slot e
unfolding entry_at
set-Writes logs rep slot old new e at change r s = elim (ℕ_discrete rep r) [
  | yes same ↦
      let hit : (rep == r) ≡ true = ground arith in
      let at' : get_elem? logs r ≡ some old = rw (← same) at in
      rw hit (
        rw (← same)
          (rw (get_elem?-set_self logs rep new (lt_of_get_elem? logs rep at), at) (change s)))
  | no other ↦
      let miss : (rep == r) ≡ false = ground arith in
      rw miss (rw (get_elem?-set_ne logs rep r new other))
]

-- What a successful write says: where it was, and that nothing else changed.
pub record Stored (logs logs' : List Log) (rep slot : ℤ) (inst : Instance) : Type 0 where
  pub r : ℕ
  pub s : ℕ
  pub at_rep : rep ≡ pos r
  pub at_slot : slot ≡ pos s
  pub in_range : r < length logs
  pub writes : Writes logs logs' r s (some inst)
  pub same_length : length logs' ≡ length logs

pub log_assign-Stored :
    (logs : List Log) (rep slot : ℤ) (inst : Instance) {logs' : List Log}
    → log_assign logs rep slot inst ≡ ok logs'
    → Stored logs logs' rep slot inst
log_assign-Stored logs rep slot inst {logs'} h =
    let (entries, h0, h1) = and_then-eq-ok (index logs rep) _ h in
    let (entries', h2, h3) = and_then-eq-ok (assign entries slot (some inst)) _ h1 in
    let (r, e_r, at) = index-eq-ok logs rep h0 in
    let (s, e_s, lt_s, set_s) = assign-eq-ok entries slot (some inst) h2 in
    let (r', e_r', lt_r, set_r) = assign-eq-ok logs rep entries' h3 in
    let same : r ≡ r' = cc in
    record {
      r = r;
      s = s;
      at_rep = e_r;
      at_slot = e_s;
      in_range = lt_of_get_elem? logs r at;
      writes =
          rw (set_r, ← same, set_s)
            (set-Writes logs r s entries (set entries s (some inst)) (some inst) at
              (λ j. entry_of-set entries s j (some inst) lt_s));
      same_length = rw set_r (length-set logs r' entries');
    }

pub log_store-Stored :
    (logs : List Log) (rep slot : ℤ) (inst : Instance) {logs' : List Log}
    → log_store logs rep slot inst ≡ ok logs'
    → Stored logs logs' rep slot inst
log_store-Stored logs rep slot inst {logs'} h =
    let (entries, h0, h1) = and_then-eq-ok (index logs rep) _ h in
    let (entries', h2, h3) = and_then-eq-ok (assign (pad entries slot) slot (some inst)) _ h1 in
    let (r, e_r, at) = index-eq-ok logs rep h0 in
    let (s, e_s, lt_s, set_s) = assign-eq-ok (pad entries slot) slot (some inst) h2 in
    let (r', e_r', lt_r, set_r) = assign-eq-ok logs rep entries' h3 in
    let same : r ≡ r' = cc in
    record {
      r = r;
      s = s;
      at_rep = e_r;
      at_slot = e_s;
      in_range = lt_of_get_elem? logs r at;
      writes =
          rw (set_r, ← same, set_s)
            (set-Writes logs r s entries (set (pad entries slot) s (some inst)) (some inst) at (λ j.
              entry_of-set (pad entries slot) s j (some inst) lt_s
              ∙ rw (entry_of-pad entries slot j)));
      same_length = rw set_r (length-set logs r' entries');
    }

length-pad : (entries : Log) (s : ℕ) → s < length (pad entries (pos s))
length-pad entries s = elim (Bool-cases (leb (length entries) s)) [
  | inl short ↦ rw short (
      let le : length entries ≤ s = ground arith in
      omega (
        arith,
        length-append entries (replicate (s + 1 - length entries) none),
        length-replicate {A = Option Instance} (s + 1 - length entries) none,
      ))
  | inr long ↦ rw long (ground arith)
]

-- A store at a replica of the cluster never fails.
pub log_store_of_lt :
    (logs : List Log) (r s : ℕ) (inst : Instance)
    → r < length logs
    → (logs' : List Log) × (log_store logs (pos r) (pos s) inst ≡ ok logs')
log_store_of_lt logs r s inst lt =
    let (entries, at) = get_elem?_of_lt logs r lt in
    let entries' = set (pad entries (pos s)) s (some inst) in
    (
      set logs r entries',
      rw at (rw (assign_of_lt (pad entries (pos s)) s (some inst) (length-pad entries s))),
    )

pub Holds-entry_at :
    (logs : List Log) (rep i : ℕ) (inst : Instance)
    → entry_at logs rep i ≡ some inst
    → Holds logs rep i inst
unfolding entry_at
Holds-entry_at logs rep i inst h = ground arith

pub entry_at-Holds :
    (logs : List Log) (rep i : ℕ) (inst : Instance)
    → Holds logs rep i inst
    → entry_at logs rep i ≡ some inst
unfolding entry_at
entry_at-Holds logs rep i inst (entries, at, e) = rw (at, e)

-- What logs[rep][slot] has read, where it was not nil.
pub log_at-entry_at :
    (logs : List Log) (rep : ℕ) (slot : ℤ) (e : Option Instance) {inst : Instance}
    → log_at logs (pos rep) slot ≡ ok e
    → deref e ≡ ok inst
    → (k : ℕ) × (slot ≡ pos k) × (entry_at logs rep k ≡ some inst)
unfolding entry_at
log_at-entry_at logs rep slot e h filled =
    let (entries, at, h1) = and_then-eq-ok (index logs (pos rep)) _ h in
    let (k, same, at') = index-eq-ok entries slot h1 in
    let (r', same', at_rep) = index-eq-ok logs (pos rep) at in
    let rr : rep ≡ r' = cc in (k, same, rw rr (rw (at_rep, at') (deref-eq-ok e filled)))
