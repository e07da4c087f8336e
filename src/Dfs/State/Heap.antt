-- ===== src/Dfs/State/Heap.antt =====
-- Cells of the heap, the lock, and what a command that has returned went through.
use cmsc818e.Prelude.{
  ℕ, ◌≡◌, ◌≢◌, refl, ap, arith, ◌==◌, true, false, Option, some, if◌then◌else◌, Result, ok, panic,
  blocked, and_then,
}
use cmsc818e.Dfs.State.{Ptr, Node, Fs, Cmd, ◌>>=◌, lift, set_cell, node_at, lock, unlock}

pub eq_self : (p : ℕ) → (p == p) ≡ true
eq_self p = ground arith

pub set_cell_self : (heap : Ptr → Option Node) (p : Ptr) (n : Node) → set_cell heap p n p ≡ some n
set_cell_self heap p n = rw (eq_self p) refl

pub set_cell_ne :
    (heap : Ptr → Option Node) (p q : Ptr) (n : Node) → p ≢ q → set_cell heap p n q ≡ heap q
set_cell_ne heap p q n h = let other : (p == q) ≡ false = ground arith in rw other refl

module _ {S : Type 0} where
  pub node_at_of : (p : Ptr) (s : Fs S) {n : Node} → s.heap p ≡ some n → node_at p s ≡ ok (n, s)
  node_at_of p s h = rw h refl

module _ {S A B : Type 0} where
  pub lift-eq-ok :
      (m : Result A) (f : A → Cmd S B) (s : Fs S) {b : B × Fs S}
      → (lift m >>= f) s ≡ ok b
      → (a : A) × (m ≡ ok a) × (f a s ≡ ok b)
  lift-eq-ok (ok a) f s h = (a, refl, h)
  lift-eq-ok panic f s h = cc
  lift-eq-ok blocked f s h = cc

  pub >>=-eq-ok :
      (m : Cmd S A) (f : A → Cmd S B) (s : Fs S) {b : B × Fs S}
      → (m >>= f) s ≡ ok b
      → (a : A) × (t : Fs S) × (m s ≡ ok (a, t)) × (f a t ≡ ok b)
  >>=-eq-ok m f s {b} h = split (m s) h
    where
      split :
          (res : Result (A × Fs S))
          → and_then res (λ (a, t). f a t) ≡ ok b
          → (a : A) × (t : Fs S) × (res ≡ ok (a, t)) × (f a t ≡ ok b)
      split (ok (a, t)) e = (a, t, refl, e)
      split panic e = cc
      split blocked e = cc

  -- A first step that is known to return.
  pub bind_of :
      (m : Cmd S A) (f : A → Cmd S B) (s : Fs S) {a : A} {t : Fs S}
      → m s ≡ ok (a, t)
      → (m >>= f) s ≡ f a t
  bind_of m f s h = ap (λ r. and_then r (λ (a, t). f a t)) h

module _ {S : Type 0} where
  pub lock_of : (s : Fs S) → s.locked ≡ false → lock s ≡ ok (tt, record s { locked = true })
  lock_of s h = ap (λ b. if b then blocked else ok (tt, record s { locked = true })) h

  pub unlock_of : (s : Fs S) → s.locked ≡ true → unlock s ≡ ok (tt, record s { locked = false })
  unlock_of s h = ap (λ b. if b then ok (tt, record s { locked = false }) else panic) h
