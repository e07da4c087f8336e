-- ===== src/Prelude/Command.antt =====
-- Commands over a state: what they give back and the state after them, or a panic, or a wait for ever.
use mathlib.Core.Path.{◌≡◌, ap}
use cmsc818e.Prelude.Faults.{Result, ok, and_then}

abbrev pub Command : Type 0 → Type 0 → Type 0
Command S A = S → Result (A × S)

module _ {S : Type 0} where
  abbrev pub pure : {A : Type 0} → A → Command S A
  pure a s = ok (a, s)

  infixl 5 ◌>>=◌ ◌>>◌
  abbrev pub ◌>>=◌ : {A B : Type 0} → Command S A → (A → Command S B) → Command S B
  ◌>>=◌ m f s = and_then (m s) (λ (a, t). f a t)

  abbrev pub ◌>>◌ : {B : Type 0} → Command S (Unit {0}) → Command S B → Command S B
  m >> k = m >>= λ _. k

  abbrev pub get : Command S S
  get s = ok (s, s)

  abbrev pub lift : {A : Type 0} → Result A → Command S A
  lift m s = and_then m (λ a. ok (a, s))

module _ {S A B : Type 0} where
  -- A first step that is known to return.
  pub bind_of :
      (m : Command S A) (f : A → Command S B) (s : S) {a : A} {t : S}
      → m s ≡ ok (a, t)
      → (m >>= f) s ≡ f a t
  bind_of m f s h = ap (λ r. and_then r (λ (a, t). f a t)) h
