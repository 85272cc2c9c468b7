-- ===== src/Engine/Dominance.antt =====
-- The double loop that FindParetoFront (internal/engine/pareto.go) and pruneDominated
-- (internal/engine/candidates.go) both contain, over the relation that each of them compares by,
-- with the slice of Go's `dominated` flags beside the candidates.
pub mod Stable
pub mod Survivor
use optipilot_ai.Prelude.{
  ℕ, zero, suc, ◌+◌, ◌≡◌, refl, ◌⊎◌, inl, inr, Bool, true, false, not, ◌||◌, List, [], ◌∷◌, ◌++◌,
  some, Memᴰ, map, append-nil, append_assoc, arith, ◌==◌, ap, fun_ext, if◌then◌else◌, Bool-cases,
  length, get_elem?, get_or, any, length-snoc, All, All-append, ◌<◌, filterb, any-append,
  get_elem?-middle,
}

module _ {ℓ} {A : Type ℓ} (dom : A → A → Bool) where
  -- `for j`: the flags of the candidates from index `j` on, compared with candidate `a` at `i`.
  pub mark_row : (i : ℕ) (a : A) (j : ℕ) → List A → List Bool → List Bool
  mark_row i a j [] ds = []
  mark_row i a j (c ∷ cs) [] = []
  mark_row i a j (c ∷ cs) (d ∷ ds) =
      (if i == j || d then d else if dom a c then true else d) ∷ mark_row i a (suc j) cs ds

  -- `for i`: the rows still to run, over all candidates and their flags.
  pub mark_rows : (i : ℕ) → List A → List A → List Bool → List Bool
  mark_rows i [] cs ds = ds
  mark_rows i (a ∷ rest) cs ds =
      mark_rows (suc i) rest cs (if get_or ds i false then ds else mark_row i a 0 cs ds)

  -- `for i, d := range dominated { if !d { append } }`
  pub kept : List A → List Bool → List A
  kept [] ds = []
  kept (c ∷ cs) [] = []
  kept (c ∷ cs) (d ∷ ds) = if d then kept cs ds else c ∷ kept cs ds

  -- The loops from all flags false.
  unfoldable pub undominated : List A → List A
  unfolding mark_row mark_rows kept
  undominated cs = kept cs (mark_rows 0 cs cs (map (λ _. false) cs))

  -- The set the loops compute: what no candidate dominates.
  abbrev pub is_dominated : List A → A → Bool
  is_dominated seen c = any (λ a. dom a c) seen

  abbrev pub nondominated : List A → List A
  nondominated cs = filterb (λ c. not (is_dominated cs c)) cs

  -- `a` is the candidate at index `i`, if this is at or behind `j`.
  abbrev Same : ℕ → A → ℕ → List A → Type ℓ
  Same i a j [] = Unit
  Same i a j (c ∷ cs) = (i ≡ j → a ≡ c) × Same i a (suc j) cs

  mark_one :
      (i j : ℕ) (a c : A) (d : Bool)
      → dom a a ≡ false
      → (i ≡ j → a ≡ c)
      → (if i == j || d then d else if dom a c then true else d) ≡ (d || dom a c)
  mark_one i j a c true irr same = ground arith
  mark_one i j a c false irr same = elim (Bool-cases (i == j)) [
    | inl e ↦ rw (e, ← same (ground arith), irr)
    | inr e ↦ rw e (ground arith)
  ]

  mark_row_lem :
      (i : ℕ) (a : A) (m : A → Bool) (j : ℕ) (cs : List A)
      → dom a a ≡ false
      → Same i a j cs
      → mark_row i a j cs (map m cs) ≡ map (λ c. m c || dom a c) cs
  unfolding mark_row
  mark_row_lem i a m j [] irr same = refl
  mark_row_lem i a m j (c ∷ cs) irr same =
      rw (mark_one i j a c (m c) irr same.0, mark_row_lem i a m (suc j) cs irr same.1)

  Same-later : (i : ℕ) (a : A) (j : ℕ) (cs : List A) → i < j → Same i a j cs
  Same-later i a j [] h = tt
  Same-later i a j (c ∷ cs) h = (λ e. absurd (omega arith), Same-later i a (suc j) cs (omega arith))

  Same-middle :
      (i : ℕ) (a : A) (j : ℕ) (pre rest : List A)
      → i ≡ j + length pre
      → Same i a j (pre ++ a ∷ rest)
  Same-middle i a j [] rest e = (λ _. refl, Same-later i a (suc j) rest (omega arith))
  Same-middle i a j (c ∷ pre) rest e =
      (λ h. absurd (omega arith), Same-middle i a (suc j) pre rest (omega arith))

  get_or-map-middle :
      (m : A → Bool) (pre : List A) (a : A) (rest : List A)
      → get_or (map m (pre ++ a ∷ rest)) (length pre) false ≡ m a
  get_or-map-middle m [] a rest = refl
  get_or-map-middle m (c ∷ pre) a rest = get_or-map-middle m pre a rest

  map_congr-All {κ} :
      (P : A → Type κ) (f g : A → Bool) (cs : List A)
      → All P cs
      → ((c : A) → P c → f c ≡ g c)
      → map f cs ≡ map g cs
  map_congr-All P f g [] all h = refl
  map_congr-All P f g (c ∷ cs) all h = rw (h c all.0, map_congr-All P f g cs all.1 h)

  module _ {κ} (P : A → Type κ) (irreflexive : (a : A) → dom a a ≡ false)
      (transitive : (a b c : A)
        → P a
        → P b
        → P c
        → dom a b ≡ true
        → dom b c ≡ true
        → dom a c ≡ true) where
    -- Going back over dominators: what dominates a dominator dominates.
    is_dominated_trans :
        (seen : List A) (b c : A)
        → All P seen
        → P b
        → P c
        → is_dominated seen b ≡ true
        → dom b c ≡ true
        → is_dominated seen c ≡ true
    is_dominated_trans [] b c ps pb pc h k = cc
    is_dominated_trans (a ∷ seen) b c ps pb pc h k =
        ground (arith, transitive a b c ps.0 pb pc, is_dominated_trans seen b c ps.1 pb pc)

    row_of_dominated :
        (seen : List A) (a : A) (cs : List A)
        → All P seen
        → P a
        → All P cs
        → is_dominated seen a ≡ true
        → map (is_dominated seen) cs ≡ map (is_dominated (seen ++ a ∷ [])) cs
    row_of_dominated seen a cs ps pa pcs h = map_congr-All P _ _ cs pcs λ c pc.
        ground
          (arith, any-append (λ b. dom b c) seen (a ∷ []), is_dominated_trans seen a c ps pa pc h)

    row_of_kept :
        (pre : List A) (a : A) (rest : List A)
        → mark_row (length pre) a 0 (pre ++ a ∷ rest) (map (is_dominated pre) (pre ++ a ∷ rest))
          ≡ map (is_dominated (pre ++ a ∷ [])) (pre ++ a ∷ rest)
    row_of_kept pre a rest =
        rw
          (mark_row_lem (length pre) a (is_dominated pre) 0 (pre ++ a ∷ rest) (irreflexive a)
            (Same-middle (length pre) a 0 pre rest (omega arith)))
          (ap (λ f. map f (pre ++ a ∷ rest))
            (fun_ext λ c. ground (arith, any-append (λ b. dom b c) pre (a ∷ []))))

    row_lem :
        (pre : List A) (a : A) (rest : List A)
        → All P pre
        → P a
        → All P rest
        → (if get_or (map (is_dominated pre) (pre ++ a ∷ rest)) (length pre) false
            then map (is_dominated pre) (pre ++ a ∷ rest)
            else mark_row
                (length pre)
                a
                0
                (pre ++ a ∷ rest)
                (map (is_dominated pre) (pre ++ a ∷ rest)))
          ≡ map (is_dominated (pre ++ a ∷ [])) (pre ++ a ∷ rest)
    row_lem pre a rest ps pa qs =
        rw (get_or-map-middle (is_dominated pre) pre a rest)
          (elim (Bool-cases (is_dominated pre a)) [
            | inl e ↦ rw e (
                row_of_dominated pre a (pre ++ a ∷ rest) ps pa
                  (All-append P pre (a ∷ rest) ps (pa, qs)) e)
            | inr e ↦ rw e (row_of_kept pre a rest)
          ])

    mark_rows_lem :
        (pre rest : List A)
        → All P pre
        → All P rest
        → mark_rows (length pre) rest (pre ++ rest) (map (is_dominated pre) (pre ++ rest))
          ≡ map (is_dominated (pre ++ rest)) (pre ++ rest)
    unfolding mark_rows
    mark_rows_lem pre [] ps qs = rw append-nil
    mark_rows_lem pre (a ∷ rest) ps qs = rw (row_lem pre a rest ps qs.0 qs.1) (
        rw (append_assoc pre (a ∷ []) rest, length-snoc pre a) at
          (mark_rows_lem (pre ++ a ∷ []) rest (All-append P pre (a ∷ []) ps (qs.0, tt)) qs.1))

    kept-map : (m : A → Bool) (cs : List A) → kept cs (map m cs) ≡ filterb (λ c. not (m c)) cs
    unfolding kept
    kept-map m [] = refl
    kept-map m (c ∷ cs) = ground (arith, kept-map m cs)

    -- The loops keep what no candidate dominates, in the order of the input, although a row whose
    -- own candidate is dominated is skipped.
    pub undominated_lem : (cs : List A) → All P cs → undominated cs ≡ nondominated cs
    unfolding undominated
    undominated_lem cs ps = rw (mark_rows_lem [] cs tt ps, kept-map (is_dominated cs) cs)
