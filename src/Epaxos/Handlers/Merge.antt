-- ===== src/Epaxos/Handlers/Merge.antt =====
-- How two vectors of dependences are joined, and what a replica makes of a leader's instance.
use cmsc818e.Prelude.{
  ℕ, zero, suc, ◌≤◌, ◌<◌, ℤ, Bool, true, false, List, [], ◌∷◌, some, ◌≡◌, ◌≢◌, refl, inl, inr, ap,
  arith, ◌≤ℤ◌, eqb_ℤ, eqb_ℤ_iff, length, get_elem?, ok, and_then-eq-ok, Bool-cases, if◌then◌else◌,
  ok-injective,
}
use mathlib.Core.Path.{ap₂, subst₂}
use cmsc818e.Epaxos.Handlers.{max, merge_deps}

pub le-max_left : (x y : ℤ) → x ≤ℤ max x y
unfolding max
le-max_left x y = ground arith

pub le-max_right : (x y : ℤ) → y ≤ℤ max x y
unfolding max
le-max_right x y = ground arith

-- The first n dependences are the greater ones of two vectors; `differ` says whether they were unequal.
pub record Joined (n : ℕ) (ds es ds' : List ℤ) (differ : Bool) : Type 0 where
  pub greater :
      (j : ℕ)
      → j < n
      → (d : ℤ) × (e : ℤ) × (get_elem? ds j ≡ some d)
        × (get_elem? es j ≡ some e)
        × (get_elem? ds' j ≡ some (max d e))
  pub same_length : length ds' ≡ length ds
  pub beyond : (j : ℕ) → n ≤ j → get_elem? ds' j ≡ get_elem? ds j
  pub equal : differ ≡ false → ds' ≡ ds
  pub unequal : differ ≡ true → (j : ℕ) × (j < n) × (get_elem? ds j ≢ get_elem? es j)

max_self : (d : ℤ) → max d d ≡ d
unfolding max
max_self d = ground arith

module _ (n : ℕ) (d e : ℤ) (ds es ds' : List ℤ) (differ : Bool)
    (join : Joined n ds es ds' differ) where
  greater_cons :
      (j : ℕ)
      → j < suc n
      → (x : ℤ) × (y : ℤ) × (get_elem? (d ∷ ds) j ≡ some x)
        × (get_elem? (e ∷ es) j ≡ some y)
        × (get_elem? (max d e ∷ ds') j ≡ some (max x y))
  greater_cons zero lt = (d, e, refl, refl, refl)
  greater_cons (suc j) lt = join.greater j (omega arith)

  beyond_cons : (j : ℕ) → suc n ≤ j → get_elem? (max d e ∷ ds') j ≡ get_elem? (d ∷ ds) j
  beyond_cons zero le = absurd (omega arith)
  beyond_cons (suc j) le = join.beyond j (omega arith)

  Joined-equal : d ≡ e → Joined (suc n) (d ∷ ds) (e ∷ es) (max d e ∷ ds') differ
  Joined-equal same = record {
    greater = greater_cons;
    same_length = ap suc join.same_length;
    beyond = beyond_cons;
    equal = λ h. ap₂ (λ x xs. x ∷ xs) (rw (← same) (max_self d)) (join.equal h);
    unequal = λ h. let (j, lt, ne) = join.unequal h in (suc j, omega arith, ne);
  }

  Joined-unequal : d ≢ e → Joined (suc n) (d ∷ ds) (e ∷ es) (max d e ∷ ds') true
  Joined-unequal ne = record {
    greater = greater_cons;
    same_length = ap suc join.same_length;
    beyond = beyond_cons;
    equal = λ h. cc;
    unequal = λ h. (0, omega arith, λ same. ne (cc));
  }

pub merge_deps-Joined :
    (n : ℕ) (ds es ds' : List ℤ) (differ : Bool)
    → merge_deps n ds es ≡ ok (ds', differ)
    → Joined n ds es ds' differ
unfolding merge_deps
merge_deps-Joined zero ds es ds' differ h = record {
  greater = λ j lt. absurd (omega arith);
  same_length = cc;
  beyond = λ j le. let same : ds ≡ ds' = cc in rw same;
  equal = λ e. cc;
  unequal = λ e. cc;
}
merge_deps-Joined (suc n) [] es ds' differ h = cc
merge_deps-Joined (suc n) (d ∷ ds) [] ds' differ h = cc
merge_deps-Joined (suc n) (d ∷ ds) (e ∷ es) out differ h =
    let ((ds', rest), below, done) = and_then-eq-ok (merge_deps n ds es) _ h in
    let join = merge_deps-Joined n ds es ds' rest below in
    elim (Bool-cases (eqb_ℤ d e)) [
      | inl same ↦
          let eq = (eqb_ℤ_iff d e).0 same in
          let head : max d e ≡ d = rw (← eq) (max_self d) in
          let result : ◌≡◌ {A = List ℤ × Bool} (max d e ∷ ds', rest) (out, differ) =
            rw head (ok-injective (rw same at done)) in
          subst₂ (λ xs b. Joined (suc n) (d ∷ ds) (e ∷ es) xs b) (ap (λ p. p.0) result)
            (ap (λ p. p.1) result) (Joined-equal n d e ds es ds' rest join eq)
      | inr other ↦
          let result : ◌≡◌ {A = List ℤ × Bool} (max d e ∷ ds', true) (out, differ) =
            ok-injective (rw other at done) in
          subst₂ (λ xs b. Joined (suc n) (d ∷ ds) (e ∷ es) xs b) (ap (λ p. p.0) result)
            (ap (λ p. p.1) result)
            (Joined-unequal n d e ds es ds' rest join (λ eq. cc ((eqb_ℤ_iff d e).1 eq, other)))
    ]

-- With enough dependences on both sides the loop finishes.
pub merge_deps_total :
    (n : ℕ) (ds es : List ℤ)
    → n ≤ length ds
    → n ≤ length es
    → (res : List ℤ × Bool) × (merge_deps n ds es ≡ ok res)
unfolding merge_deps
merge_deps_total zero ds es h k = ((ds, false), refl)
merge_deps_total (suc n) [] es h k = absurd (omega arith)
merge_deps_total (suc n) (d ∷ ds) [] h k = absurd (omega arith)
merge_deps_total (suc n) (d ∷ ds) (e ∷ es) h k =
    let ((ds', differ), below) = merge_deps_total n ds es (omega arith) (omega arith) in
    (if eqb_ℤ d e then (d ∷ ds', differ) else (max d e ∷ ds', true), rw below)
