-- ===== src/Locks/Paths.antt =====
-- The paths that the loops of Acquire and Release in sylan/p3/lock/main.go go through.
use cmsc818e.Prelude.{
  ℕ, ◌≤◌, true, false, List, [], ◌∷◌, ◌++◌, ◌==◌, ==_iff, Bool-cases, ◌≡◌, ◌≢◌, refl, ap, sym, ◌∙◌,
  inl, inr, arith, length, drop, length-append,
}
use cmsc818e.Locks.{LockPath, slash, eqb_path, LockType, next_path, mode_at, split}
use cmsc818e.Locks.Entries.{modes_at, eqb_path_iff}

-- The path after the last round.
abbrev pub after : LockPath → List LockPath → LockPath
after acc [] = acc
after acc (name ∷ names) = after (next_path acc name) names

abbrev pub join : List LockPath → LockPath
join [] = []
join (name ∷ names) = slash ∷ (name ++ join names)

pub split-cons : (s : LockPath) → (w : LockPath) × (ws : List LockPath) × (split s ≡ w ∷ ws)
split-cons [] = ([], [], refl)
split-cons (c ∷ s) =
    let (w, ws, e) = split-cons s in
    elim (Bool-cases (c == slash)) [
      | inl h ↦ ([], split s, rw h refl)
      | inr h ↦ (c ∷ w, ws, rw h (rw e refl))
    ]

pub join-split : (s : LockPath) → join (split s) ≡ slash ∷ s
join-split [] = refl
join-split (c ∷ s) =
    let (w, ws, e) = split-cons s in
    elim (Bool-cases (c == slash)) [
      | inl h ↦ rw h (rw (join-split s) (rw ((==_iff c slash).0 h) refl))
      | inr h ↦
          let tail : w ++ join ws ≡ s = ap (drop 1) (ap join (sym e) ∙ join-split s) in
          rw h (rw e (ap (λ r. slash ∷ c ∷ r) tail))
    ]

pub split-append : (p rest : LockPath) → split (p ++ slash ∷ rest) ≡ split p ++ split rest
split-append [] rest = refl
split-append (c ∷ p) rest =
    let (w, ws, e) = split-cons p in
    elim (Bool-cases (c == slash)) [
      | inl h ↦ rw h (ap (λ r. [] ∷ r) (split-append p rest))
      | inr h ↦ rw h (rw (split-append p rest) (rw e refl))
    ]

append_assoc : (xs ys zs : LockPath) → (xs ++ ys) ++ zs ≡ xs ++ (ys ++ zs)
append_assoc [] ys zs = refl
append_assoc (x ∷ xs) ys zs = ap (λ r. x ∷ r) (append_assoc xs ys zs)

pub append_nil : {A : Type 0} (xs : List A) → xs ++ [] ≡ xs
append_nil [] = refl
append_nil (x ∷ xs) = ap (λ r. x ∷ r) (append_nil xs)

-- From two bytes on, each round adds a slash and a name.
pub after-join :
    (acc : LockPath) (names : List LockPath) → 2 ≤ length acc → after acc names ≡ acc ++ join names
after-join acc [] h = sym (append_nil acc)
after-join acc (name ∷ names) h =
    let long : (length acc == 1) ≡ false = ground arith in
    let more : 2 ≤ length (acc ++ slash ∷ name) = omega (arith, length-append acc (slash ∷ name)) in
    rw long
      (after-join (acc ++ slash ∷ name) names more ∙ append_assoc acc (slash ∷ name) (join names))

-- An absolute path that is not the root, and whose first name is not empty.
abbrev pub IsProper : LockPath → Type 0
IsProper p = (c : ℕ) × (s : LockPath) × (p ≡ slash ∷ c ∷ s) × (c ≢ slash)

-- The last round of the loop over the names of a proper path is at the path itself.
pub after-split : (p : LockPath) → IsProper p → after [] (split p) ≡ p
after-split p (c, s, e, other) =
    let (w, ws, names) = split-cons s in
    let no : (c == slash) ≡ false = ground arith in
    let tail : w ++ join ws ≡ s = ap (drop 1) (ap join (sym names) ∙ join-split s) in
    let first : split (slash ∷ c ∷ s) ≡ [] ∷ (c ∷ w) ∷ ws = rw no (rw names refl) in
    ap (λ q. after [] (split q)) e
    ∙ ap (after []) first
    ∙ after-join (slash ∷ c ∷ w) ws (omega arith)
    ∙ ap (λ r. slash ∷ c ∷ r) tail
    ∙ sym e

-- A loop that gets to q has an operation on the lock at q.
pub modes_at-after :
    (q : LockPath) (mode : LockType) (path acc : LockPath) (names : List LockPath) (name : LockPath)
    (more : List LockPath)
    → after acc (name ∷ names) ≡ q
    → (modes : List LockType) × (modes_at q mode path acc (name ∷ names ++ more)
        ≡ mode_at mode path q ∷ modes)
modes_at-after q mode path acc [] name more h =
    let self : eqb_path (next_path acc name) q ≡ true = (eqb_path_iff (next_path acc name) q).1 h in
    (
      modes_at q mode path (next_path acc name) more,
      rw self (ap (λ k. mode_at mode path k ∷ modes_at q mode path (next_path acc name) more) h),
    )
modes_at-after q mode path acc (second ∷ names) name more h =
    let next = next_path acc name in
    let (modes, e) = modes_at-after q mode path next names second more h in
    elim (Bool-cases (eqb_path next q)) [
      | inl self ↦ (
        mode_at mode path q ∷ modes,
        rw self (
            rw e (
              ap (λ k. mode_at mode path k ∷ mode_at mode path q ∷ modes)
                ((eqb_path_iff next q).0 self))),
      )
      | inr other ↦ (modes, rw other e)
    ]
