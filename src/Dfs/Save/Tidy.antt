-- ===== src/Dfs/Save/Tidy.antt =====
-- File systems in memory that traversalSave of sylan/p2/dfs/fs.go can save, and the loop over the kids'
-- signatures.
use mathlib.Core.Path.{subst}
use cmsc818e.Prelude.{
  ℕ, ◌<◌, String, [], ◌∷◌, none, some, true, false, Bool-cases, ◌≡◌, ◌⊎◌, inl, inr, refl, ap, sym,
  ◌∙◌, All, str_eq, str_eq_iff, ok,
}
use cmsc818e.Prelude.Dict.{Dict, find, put, find-put}
use cmsc818e.Dfs.State.{Ptr, Node, Fs, node_at}
use cmsc818e.Dfs.State.Heap.{bind_of, node_at_of}
use cmsc818e.Dfs.Wire.{Env}
use cmsc818e.Dfs.Handlers.{dict_or_empty}
use cmsc818e.Dfs.Save.{collect_sigs}
use cmsc818e.Dfs.Save.Progress.{CleanAt, Progress, clean-stays, renewed}

-- A Go map has one entry for each key.
abbrev pub IsMap : {V : Type 0} → Dict V → Type 0
IsMap [] = Unit {0}
IsMap ((name, v) ∷ m) = (find name m ≡ none) × IsMap m

-- The kids are there, and of a rank below r.
abbrev pub KidsBelow : {S : Type 0} → Fs S → (Ptr → ℕ) → (r : ℕ) → Dict Ptr → Type 0
KidsBelow s rank r kids = All (λ e. ((c : Node) × (s.heap e.1 ≡ some c)) × (rank e.1 < r)) kids

-- Every node has been loaded if it is marked, and its kids are there, of a lower rank.
pub record IsTidy {S : Type 0} (rank : Ptr → ℕ) (s : Fs S) : Type 0 where
  pub loaded :
      (p : Ptr) (n : Node) → s.heap p ≡ some n → n.meta_dirty ≡ true → n.load_from_db ≡ false
  pub names : (p : Ptr) (n : Node) → s.heap p ≡ some n → IsMap (dict_or_empty n.kids)
  pub kids :
      (p : Ptr) (n : Node) → s.heap p ≡ some n → KidsBelow s rank (rank p) (dict_or_empty n.kids)

module _ {S : Type 0} (env : Env S) (rank : Ptr → ℕ) where
  -- Nodes stay where they are.
  pub alive-stays :
      (r : ℕ) (s t : Fs S) (q : Ptr) {n : Node}
      → Progress env rank r s t
      → s.heap q ≡ some n
      → (c : Node) × (t.heap q ≡ some c)
  alive-stays r s t q {n} h at = elim (h.cell q) [
    | inl same ↦ (n, same ∙ at)
    | inr new ↦ (_, new.now)
  ]

  pub KidsBelow-stays :
      (r : ℕ) (s t : Fs S) (bound : ℕ) (kids : Dict Ptr)
      → Progress env rank r s t
      → KidsBelow s rank bound kids
      → KidsBelow t rank bound kids
  KidsBelow-stays r s t bound [] h below = tt
  KidsBelow-stays r s t bound ((name, q) ∷ kids) h (((c, at), low), below) =
      ((alive-stays r s t q h at, low), KidsBelow-stays r s t bound kids h below)

  -- What holds of the kids of each node holds after a save, which keeps them.
  pub IsTidy-stays : (r : ℕ) (s t : Fs S) → Progress env rank r s t → IsTidy rank s → IsTidy rank t
  unfolding renewed
  IsTidy-stays r s t h tidy = record {
    loaded = λ p n at dirty. elim (h.cell p) [
      | inl same ↦ tidy.loaded p n (sym same ∙ at) dirty
      | inr new ↦
          let both : some (renewed env new.order new.sigs new.old) ≡ some n = sym new.now ∙ at in
          let one : renewed env new.order new.sigs new.old ≡ n = cc in
          let no : false ≡ true = ap (λ x. x.meta_dirty) one ∙ dirty in cc
    ];
    names = λ p n at. elim (h.cell p) [
      | inl same ↦ tidy.names p n (sym same ∙ at)
      | inr new ↦
          let both : some (renewed env new.order new.sigs new.old) ≡ some n = sym new.now ∙ at in
          let one : renewed env new.order new.sigs new.old ≡ n = cc in
          subst (λ x. IsMap (dict_or_empty x.kids)) one (tidy.names p new.old new.was)
    ];
    kids = λ p n at. elim (h.cell p) [
      | inl same ↦ KidsBelow-stays r s t (rank p) _ h (tidy.kids p n (sym same ∙ at))
      | inr new ↦
          let both : some (renewed env new.order new.sigs new.old) ≡ some n = sym new.now ∙ at in
          let one : renewed env new.order new.sigs new.old ≡ n = cc in
          subst (λ x. KidsBelow t rank (rank p) (dict_or_empty x.kids)) one
            (KidsBelow-stays r s t (rank p) _ h (tidy.kids p new.old new.was))
    ];
  }

  pub CleanAt-stays :
      (r : ℕ) (s t : Fs S) (kids : Dict Ptr)
      → Progress env rank r s t
      → All (λ e. CleanAt s e.1) kids
      → All (λ e. CleanAt t e.1) kids
  CleanAt-stays r s t [] h clean = tt
  CleanAt-stays r s t ((name, q) ∷ kids) h ((c, at, low), clean) =
      ((c, clean-stays env rank r s t q c h at low, low), CleanAt-stays r s t kids h clean)

pub rank-find :
    {S : Type 0} (s : Fs S) (rank : Ptr → ℕ) (r : ℕ) (kids : Dict Ptr) (name : String) (k : Ptr)
    → KidsBelow s rank r kids
    → find name kids ≡ some k
    → rank k < r
rank-find s rank r [] name k below e = cc
rank-find s rank r ((other, q) ∷ kids) name k ((alive, low), below) e =
    elim (Bool-cases (str_eq other name)) [
      | inl same ↦
          let both : some q ≡ some k = rw same at e in
          let one : q ≡ k = cc in subst (λ x. rank x < r) one low
      | inr differs ↦ rank-find s rank r kids name k below (rw differs at e)
    ]

-- The signatures that the loop collects: those of the kids, and what was there under other names.
abbrev pub SigsOf : {S : Type 0} → Fs S → Dict Ptr → (acc sigs : Dict String) → Type 0
SigsOf t kids acc sigs =
    (name : String)
    → ((find name kids ≡ none) × (find name sigs ≡ find name acc))
      ⊎ ((k : Ptr) × (c : Node) × (find name kids ≡ some k)
          × (t.heap k ≡ some c)
          × (c.meta_dirty ≡ false)
          × (find name sigs ≡ some c.sig))

pub collect_sigs-SigsOf :
    {S : Type 0} (kids : Dict Ptr) (acc : Dict String) (t : Fs S)
    → IsMap kids
    → All (λ e. CleanAt t e.1) kids
    → (sigs : Dict String) × (collect_sigs kids acc t ≡ ok (sigs, t)) × SigsOf t kids acc sigs
unfolding collect_sigs
collect_sigs-SigsOf [] acc t distinct clean = (acc, refl, λ name. inl (refl, refl))
collect_sigs-SigsOf ((name, q) ∷ kids) acc t distinct ((c, at, low), clean) =
    let (sigs, runs, has) = collect_sigs-SigsOf kids (put name c.sig acc) t distinct.1 clean in
    (
      sigs,
      bind_of (node_at q) (λ kid. collect_sigs kids (put name kid.sig acc)) t (node_at_of q t at)
          ∙ runs,
      λ other. elim (Bool-cases (str_eq name other)) [
        | inl same ↦
            let here : find other kids ≡ none =
              ap (λ x. find x kids) (sym ((str_eq_iff name other).0 same)) ∙ distinct.0 in
            elim (has other) [
              | inl (absent, old) ↦
                  inr (
                    q,
                    c,
                    rw same refl,
                    at,
                    low,
                    old ∙ find-put name other c.sig acc ∙ rw same refl,
                  )
              | inr found ↦ let no : none ≡ some found.0 = sym here ∙ found.2 in cc
            ]
        | inr differs ↦ elim (has other) [
          | inl (absent, old) ↦
              inl (rw differs absent, old ∙ find-put name other c.sig acc ∙ rw differs refl)
          | inr (k, d, found, there, clean_k, sig) ↦
              inr (k, d, rw differs found, there, clean_k, sig)
        ]
      ],
    )
