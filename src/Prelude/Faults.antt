-- ===== src/Prelude/Faults.antt =====
-- Outcomes of Go code: a value, a run-time panic, or a goroutine that waits for ever.
use Prim.Native.Nat.{ℕ, ◌<◌}
use mathlib.Core.Path.{◌≡◌, refl}
use mathlib.Core.Option.{Option, none, some}
use mathlib.Core.List.{List}
use cmsc818e.Prelude.Int.{ℤ, pos, negsuc}
use cmsc818e.Prelude.Lists.{length, get_elem?, set, get_elem?_of_lt, lt_of_get_elem?}

pub data Result {ℓ} (A : Type ℓ) : Type ℓ where
  ok : A → Result A
  panic : Result A
  blocked : Result A

abbrev pub and_then {ℓ κ} : {A : Type ℓ} {B : Type κ} → Result A → (A → Result B) → Result B
and_then (ok a) f = f a
and_then panic f = panic
and_then blocked f = blocked

-- A value that must be there: nil is a panic.
abbrev pub deref {ℓ} : {A : Type ℓ} → Option A → Result A
deref none = panic
deref (some a) = ok a

module _ {ℓ} {A : Type ℓ} where
  -- xs[i], with Go's bounds check.
  abbrev pub index : List A → ℤ → Result A
  index xs (pos i) = deref (get_elem? xs i)
  index xs (negsuc i) = panic

  -- xs[i] = v, with Go's bounds check.
  abbrev pub assign : List A → ℤ → A → Result (List A)
  assign xs (pos i) v = and_then (deref (get_elem? xs i)) (λ _. ok (set xs i v))
  assign xs (negsuc i) v = panic

  pub and_then-eq-ok {κ} :
      {B : Type κ} (m : Result A) (f : A → Result B) {b : B}
      → and_then m f ≡ ok b
      → (a : A) × (m ≡ ok a) × (f a ≡ ok b)
  and_then-eq-ok (ok a) f h = (a, refl, h)
  and_then-eq-ok panic f h = cc
  and_then-eq-ok blocked f h = cc

module _ {ℓ} {A : Type ℓ} where
  pub deref-eq-ok : (o : Option A) {a : A} → deref o ≡ ok a → o ≡ some a
  deref-eq-ok none h = cc
  deref-eq-ok (some b) h = cc

  -- A successful access was in range.
  pub index-eq-ok :
      (xs : List A) (z : ℤ) {a : A}
      → index xs z ≡ ok a
      → (i : ℕ) × (z ≡ pos i) × (get_elem? xs i ≡ some a)
  index-eq-ok xs (pos i) h = (i, refl, deref-eq-ok (get_elem? xs i) h)
  index-eq-ok xs (negsuc i) h = cc

  pub assign-eq-ok :
      (xs : List A) (z : ℤ) (v : A) {ys : List A}
      → assign xs z v ≡ ok ys
      → (i : ℕ) × (z ≡ pos i) × (i < length xs) × (ys ≡ set xs i v)
  assign-eq-ok xs (pos i) v h =
      let (a, at, done) = and_then-eq-ok (deref (get_elem? xs i)) _ h in
      (i, refl, lt_of_get_elem? xs i (deref-eq-ok _ at), cc)
  assign-eq-ok xs (negsuc i) v h = cc

  -- An access in range succeeds.
  pub index_of_lt : (xs : List A) (i : ℕ) → i < length xs → (a : A) × (index xs (pos i) ≡ ok a)
  index_of_lt xs i h = let (a, at) = get_elem?_of_lt xs i h in (a, rw at)

  pub assign_of_lt :
      (xs : List A) (i : ℕ) (v : A) → i < length xs → assign xs (pos i) v ≡ ok (set xs i v)
  assign_of_lt xs i v h = let (a, at) = get_elem?_of_lt xs i h in rw at

  pub ok-injective : {a b : A} → ok a ≡ ok b → a ≡ b
  ok-injective h = cc
