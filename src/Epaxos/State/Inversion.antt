-- ===== src/Epaxos/State/Inversion.antt =====
-- What a command that has returned went through.
use cmsc818e.Prelude.{◌≡◌, refl, Result, ok, panic, blocked, and_then}
use cmsc818e.Epaxos.State.{Replica, Cmd, ◌>>=◌, lift}

module _ {A B : Type 0} where
  pub lift-eq-ok :
      (m : Result A) (f : A → Cmd B) (r : Replica) {b : B × Replica}
      → (lift m >>= f) r ≡ ok b
      → (a : A) × (m ≡ ok a) × (f a r ≡ ok b)
  lift-eq-ok (ok a) f r h = (a, refl, h)
  lift-eq-ok panic f r h = cc
  lift-eq-ok blocked f r h = cc

  pub >>=-eq-ok :
      (m : Cmd A) (f : A → Cmd B) (r : Replica) {b : B × Replica}
      → (m >>= f) r ≡ ok b
      → (a : A) × (t : Replica) × (m r ≡ ok (a, t)) × (f a t ≡ ok b)
  >>=-eq-ok m f r {b} h = split (m r) h
    where
      split :
          (res : Result (A × Replica))
          → and_then res (λ (a, t). f a t) ≡ ok b
          → (a : A) × (t : Replica) × (res ≡ ok (a, t)) × (f a t ≡ ok b)
      split (ok (a, t)) e = (a, t, refl, e)
      split panic e = cc
      split blocked e = cc
