-- ===== src/Engine/Dominance/Survivor.antt =====
-- The dominance loops never drop every candidate, whatever the relation: the row that runs last is
-- not marked before it runs, by its own guard not while it runs, and not afterwards.
use optipilot_ai.Prelude.{
  Bool, List, ℕ, [], length, ◌+◌, ◌<◌, ◌∷◌, ◌≡◌, arith, get_or, map, ◌≢◌, false, suc, true,
  Bool-cases, ap, refl, zero, inl, inr, Memᴰ,
}
use optipilot_ai.Engine.Dominance.{mark_row, mark_rows, kept, undominated}

module _ {ℓ} {A : Type ℓ} (dom : A → A → Bool) where
  length-mark_row :
      (i : ℕ) (a : A) (j : ℕ) (cs : List A) (ds : List Bool)
      → length ds ≡ length cs
      → length (mark_row dom i a j cs ds) ≡ length cs
  unfolding mark_row
  length-mark_row i a j [] ds h = refl
  length-mark_row i a j (c ∷ cs) [] h = absurd (omega arith)
  length-mark_row i a j (c ∷ cs) (d ∷ ds) h =
      omega (arith, length-mark_row i a (suc j) cs ds (omega arith))

  -- The row of candidate `i` leaves its own flag alone.
  mark_row_self :
      (i : ℕ) (a : A) (j k : ℕ) (cs : List A) (ds : List Bool)
      → i ≡ j + k
      → k < length cs
      → get_or ds k true ≡ false
      → get_or (mark_row dom i a j cs ds) k true ≡ false
  unfolding mark_row
  mark_row_self i a j k [] ds e h f = absurd (omega arith)
  mark_row_self i a j k (c ∷ cs) [] e h f = cc
  mark_row_self i a j zero (c ∷ cs) (d ∷ ds) e h f = ground arith
  mark_row_self i a j (suc k) (c ∷ cs) (d ∷ ds) e h f =
      mark_row_self i a (suc j) k cs ds (omega arith) (omega arith) f

  get_or-true-of-false :
      (ds : List Bool) (k : ℕ)
      → k < length ds
      → get_or ds k false ≡ false
      → get_or ds k true ≡ false
  get_or-true-of-false [] k h f = absurd (omega arith)
  get_or-true-of-false (d ∷ ds) zero h f = f
  get_or-true-of-false (d ∷ ds) (suc k) h f = get_or-true-of-false ds k (omega arith) f

  survivor :
      (i : ℕ) (rest cs : List A) (ds : List Bool) (k : ℕ)
      → i + length rest ≡ length cs
      → length ds ≡ length cs
      → k < length cs
      → get_or ds k true ≡ false
      → (k' : ℕ) × (k' < length cs) × (get_or (mark_rows dom i rest cs ds) k' true ≡ false)
  unfolding mark_rows
  survivor i [] cs ds k e l h f = (k, h, f)
  survivor i (a ∷ rest) cs ds k e l h f = elim (Bool-cases (get_or ds i false)) [
    | inl skip ↦ rw skip (survivor (suc i) rest cs ds k (omega arith) l h f)
    | inr run ↦ rw run (
        survivor (suc i) rest cs (mark_row dom i a 0 cs ds) i (omega arith)
          (length-mark_row i a 0 cs ds l) (omega arith)
          (mark_row_self i a 0 i cs ds (omega arith) (omega arith)
            (get_or-true-of-false ds i (omega arith) run)))
  ]

  kept-ne-nil :
      (cs : List A) (ds : List Bool) (k : ℕ)
      → k < length cs
      → get_or ds k true ≡ false
      → kept dom cs ds ≢ []
  unfolding kept
  kept-ne-nil [] ds k h f = absurd (omega arith)
  kept-ne-nil (c ∷ cs) [] k h f = cc
  kept-ne-nil (c ∷ cs) (d ∷ ds) zero h f = ground arith
  kept-ne-nil (c ∷ cs) (true ∷ ds) (suc k) h f = kept-ne-nil cs ds k (omega arith) f
  kept-ne-nil (c ∷ cs) (false ∷ ds) (suc k) h f = λ e. cc

  length-flags : (cs : List A) → length (map (λ (c : A). false) cs) ≡ length cs
  length-flags [] = refl
  length-flags (c ∷ cs) = ap suc (length-flags cs)

  pub undominated-ne-nil : (c : A) (cs : List A) → undominated dom (c ∷ cs) ≢ []
  unfolding undominated
  undominated-ne-nil c cs =
      let (k, h, f) =
        survivor 0 (c ∷ cs) (c ∷ cs) (map (λ _. false) (c ∷ cs)) 0 (omega arith)
          (length-flags (c ∷ cs)) (omega arith) refl in
      kept-ne-nil (c ∷ cs) (mark_rows dom 0 (c ∷ cs) (c ∷ cs) (map (λ _. false) (c ∷ cs))) k h f

  mem_of_kept : (a : A) (cs : List A) (ds : List Bool) → Memᴰ a (kept dom cs ds) → Memᴰ a cs
  unfolding kept
  mem_of_kept a [] ds m = elim m [ ]
  mem_of_kept a (c ∷ cs) [] m = elim m [ ]
  mem_of_kept a (c ∷ cs) (true ∷ ds) m = Memᴰ.tail (mem_of_kept a cs ds m)
  mem_of_kept a (c ∷ cs) (false ∷ ds) (Memᴰ.head e) = Memᴰ.head e
  mem_of_kept a (c ∷ cs) (false ∷ ds) (Memᴰ.tail m) = Memᴰ.tail (mem_of_kept a cs ds m)

  pub mem_of_undominated : (a : A) (cs : List A) → Memᴰ a (undominated dom cs) → Memᴰ a cs
  unfolding undominated
  mem_of_undominated a cs m = mem_of_kept a cs (mark_rows dom 0 cs cs (map (λ (c : A). false) cs)) m
