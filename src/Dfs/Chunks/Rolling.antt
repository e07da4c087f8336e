-- ===== src/Dfs/Chunks/Rolling.antt =====
-- The rolling hash of getNextChunkOff of sylan/p2/dfs/fs.go against a hash of each window from scratch.
use mathlib.Core.Path.{subst}
use cmsc818e.Prelude.{
  ℕ, zero, suc, ◌+◌, ◌-◌, ◌*◌, ◌≤◌, [], ◌∷◌, ◌++◌, some, Bool-cases, ◌≡◌, refl, ap, sym, ◌∙◌, inl,
  inr, arith, ltb, length, take, drop, get_elem?, if◌then◌else◌, ok, get_elem?_of_lt,
  lt_of_get_elem?, drop-get_elem?, get_elem?-drop, take-suc, length-take,
}
use cmsc818e.Dfs.Chunks.{
  Bytes, wrap, the_prime, hash_len, power, saved, fill, roll_hash, is_end, roll, window,
  get_next_chunk_off,
}

-- The hash of some bytes, from `hash` on.
abbrev pub hash_of : (hash : ℕ) → Bytes → ℕ
hash_of hash [] = hash
hash_of hash (x ∷ xs) = hash_of (wrap (hash * the_prime + x)) xs

-- The same before it is wrapped.
abbrev poly : ℕ → Bytes → ℕ
poly h [] = h
poly h (x ∷ xs) = poly (h * 31 + x) xs

abbrev pow : ℕ → ℕ
pow zero = 1
pow (suc n) = 31 * pow n

wrap-step : (h x : ℕ) → wrap (wrap h * 31 + x) ≡ wrap (h * 31 + x)
unfolding wrap
wrap-step h x = omega arith

hash_of-poly : (h : ℕ) (xs : Bytes) → hash_of (wrap h) xs ≡ wrap (poly h xs)
hash_of-poly h [] = refl
hash_of-poly h (x ∷ xs) = ap (λ n. hash_of n xs) (wrap-step h x) ∙ hash_of-poly (h * 31 + x) xs

poly-split : (h : ℕ) (xs : Bytes) → poly h xs ≡ h * pow (length xs) + poly 0 xs
poly-split h [] = omega arith
poly-split h (x ∷ xs) =
    let a = poly-split (h * 31 + x) xs in
    let b : poly (0 * 31 + x) xs ≡ (0 * 31 + x) * pow (length xs) + poly 0 xs =
      poly-split (0 * 31 + x) xs in
    let p = pow (length xs) in
    let ring : (h * 31 + x) * p ≡ h * (31 * p) + x * p = grind arith in grind (arith, a, b, ring)

poly-append : (h : ℕ) (xs : Bytes) (x : ℕ) → poly h (xs ++ x ∷ []) ≡ poly h xs * 31 + x
poly-append h [] x = refl
poly-append h (y ∷ xs) x = poly-append (h * 31 + y) xs x

-- The hash without its oldest byte and with a new one.
pub roll_hash-window :
    (old new : ℕ) (rest : Bytes)
    → length rest ≡ 31
    → roll_hash (hash_of 0 (old ∷ rest)) old new ≡ hash_of 0 (rest ++ new ∷ [])
unfolding roll_hash saved wrap power
roll_hash-window old new rest long =
    let high : poly (0 * 31 + old) rest ≡ old * pow 31 + poly 0 rest =
      poly-split (0 * 31 + old) rest
      ∙ ap (λ n. (0 * 31 + old) * pow n + poly 0 rest) long
      ∙ omega arith in
    let before : hash_of 0 (old ∷ rest) ≡ wrap (old * pow 31 + poly 0 rest) =
      hash_of-poly (0 * 31 + old) rest ∙ ap wrap high in
    let after : hash_of 0 (rest ++ new ∷ []) ≡ wrap (poly 0 rest * 31 + new) =
      hash_of-poly 0 (rest ++ new ∷ []) ∙ ap wrap (poly-append 0 rest new) in
    ap (λ h. roll_hash h old new) before ∙ turn (poly 0 rest) ∙ sym after
  where
    turn : (r : ℕ) → roll_hash (wrap (old * pow 31 + r)) old new ≡ wrap (r * 31 + new)
    turn r = omega arith

-- The 32 bytes before an offset.
abbrev pub window_at : Bytes → (off : ℕ) → Bytes
window_at buf off = take 32 (drop (off - 32) buf)

-- The first offset after `off`, of the next k, at which a chunk may end, with the hash of the window before it
-- computed from scratch; off + k if there is none.
abbrev pub cut_after : Bytes → (off k : ℕ) → ℕ
cut_after buf off zero = off
cut_after buf off (suc k) =
    let rest = cut_after buf (off + 1) k in
    if is_end (off + 1) (hash_of 0 (window_at buf (off + 1))) then off + 1 else rest

suc_eq : (n : ℕ) → suc n ≡ n + 1
suc_eq n = omega arith

fill-hash_of :
    (buf : Bytes) (off hash k : ℕ)
    → off + k ≤ length buf
    → fill buf off hash k ≡ ok (hash_of hash (take k (drop off buf)))
unfolding fill
fill-hash_of buf off hash zero le = refl
fill-hash_of buf off hash (suc k) le =
    let (x, at) = get_elem?_of_lt buf off (omega arith) in
    let later = fill-hash_of buf (off + 1) (wrap (hash * the_prime + x)) k (omega arith) in
    let next : drop (suc off) buf ≡ drop (off + 1) buf = ap (λ i. drop i buf) (suc_eq off) in
    let taken : take (suc k) (drop off buf) ≡ x ∷ take k (drop (off + 1) buf) =
      ap (take (suc k)) (drop-get_elem? off buf at) ∙ ap (λ d. x ∷ take k d) next in
    rw at (later ∙ ap (λ xs. ok (hash_of hash xs)) (sym taken))

-- How the window moves on by a byte.
window-step :
    (buf : Bytes) (i : ℕ) {old new : ℕ}
    → get_elem? buf i ≡ some old
    → get_elem? buf (i + 32) ≡ some new
    → (rest : Bytes) × (length rest ≡ 31)
      × (take 32 (drop i buf) ≡ old ∷ rest)
      × (take 32 (drop (i + 1) buf) ≡ rest ++ new ∷ [])
window-step buf i {old} {new} at_old at_new =
    let d = drop (i + 1) buf in
    let next : drop (suc i) buf ≡ d = ap (λ j. drop j buf) (suc_eq i) in
    let there : i + 1 + 31 ≡ i + 32 = omega arith in
    let last : get_elem? d 31 ≡ some new =
      get_elem?-drop (i + 1) 31 buf ∙ ap (get_elem? buf) there ∙ at_new in
    (
      take 31 d,
      omega (arith, length-take 31 d, lt_of_get_elem? d 31 last),
      ap (take 32) (drop-get_elem? i buf at_old) ∙ ap (λ t. old ∷ take 31 t) next,
      take-suc 31 d last,
    )

roll-cut_after :
    (buf : Bytes) (i k : ℕ)
    → i + 32 + k ≤ length buf
    → roll buf (i + 32) (hash_of 0 (take 32 (drop i buf))) k ≡ ok (cut_after buf (i + 32) k)
unfolding roll
roll-cut_after buf i zero le = refl
roll-cut_after buf i (suc k) le =
    let (old, at_old) = get_elem?_of_lt buf i (omega arith) in
    let (new, at_new) = get_elem?_of_lt buf (i + 32) (omega arith) in
    let (rest, long, now, next) = window-step buf i at_old at_new in
    let low : i + 32 - hash_len ≡ i = omega arith in
    let at_old' : get_elem? buf (i + 32 - hash_len) ≡ some old = ap (get_elem? buf) low ∙ at_old in
    let hash = hash_of 0 (take 32 (drop (i + 1) buf)) in
    let rolled : roll_hash (hash_of 0 (take 32 (drop i buf))) old new ≡ hash =
      ap (λ w. roll_hash (hash_of 0 w) old new) now
      ∙ roll_hash-window old new rest long
      ∙ ap (hash_of 0) (sym next) in
    let start : i + 32 + 1 - 32 ≡ i + 1 = omega arith in
    let seen : window_at buf (i + 32 + 1) ≡ take 32 (drop (i + 1) buf) =
      ap (λ j. take 32 (drop j buf)) start in
    let shift : i + 1 + 32 ≡ i + 32 + 1 = omega arith in
    let later : roll buf (i + 32 + 1) hash k ≡ ok (cut_after buf (i + 32 + 1) k) =
      subst (λ off. roll buf off hash k ≡ ok (cut_after buf off k)) shift
        (roll-cut_after buf (i + 1) k (omega arith)) in
    rw at_old' (
      rw at_new (
        rw rolled (
          rw seen (elim (Bool-cases (is_end (i + 32 + 1) hash)) [
            | inl e ↦ rw e refl
            | inr e ↦ rw e later
          ]))))

-- On every buffer getNextChunkOff, which rolls its hash, cuts where a hash of each window from scratch cuts: the place
-- of a cut depends on the 32 bytes before it only, and on the least and the greatest size of a chunk.
pub get_next_chunk_off-cut_after :
    (buf : Bytes)
    → get_next_chunk_off buf (length buf)
      ≡ ok (cut_after buf (window (length buf)) (length buf - window (length buf)))
unfolding get_next_chunk_off window roll
get_next_chunk_off-cut_after buf = elim (Bool-cases (ltb (length buf) hash_len)) [
  | inl short ↦
      let none_left : length buf - length buf ≡ 0 = omega arith in
      rw short (rw (fill-hash_of buf 0 0 (length buf) (omega arith)) (rw none_left refl))
  | inr long ↦
      let enough : 32 ≤ length buf = ground arith in
      rw long (
        rw (fill-hash_of buf 0 0 32 (omega arith))
          (roll-cut_after buf 0 (length buf - 32) (omega arith)))
]
