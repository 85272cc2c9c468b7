-- ===== src/Engine/Dominance/Stable.antt =====
-- What the dominance loops keep covers what they drop: every candidate is kept or dominated by a
-- kept one, so a list that is not empty keeps something.
use optipilot_ai.Prelude.{
  ◌≡◌, refl, ◌⊎◌, inl, inr, Bool, true, false, not, List, [], ◌∷◌, Memᴰ, arith, Bool-cases, All,
  All-mem, mem-filterb,
}
use optipilot_ai.Engine.Dominance.{is_dominated, is_dominated_trans, undominated, undominated_lem}

module _ {ℓ κ} {A : Type ℓ} (dom : A → A → Bool) (P : A → Type κ)
    (irreflexive : (a : A) → dom a a ≡ false)
    (transitive : (a b c : A)
      → P a
      → P b
      → P c
      → dom a b ≡ true
      → dom b c ≡ true
      → dom a c ≡ true) where
  -- Among `c` and `cs` there is one that nothing there dominates, and that is `c` or dominates it.
  top :
      (c : A) (cs : List A)
      → P c
      → All P cs
      → (m : A) × Memᴰ m (c ∷ cs)
        × ((m ≡ c) ⊎ (dom m c ≡ true))
        × (is_dominated dom (c ∷ cs) m ≡ false)
        × P m
  top c [] pc ps = (c, Memᴰ.head refl, inl refl, rw irreflexive, pc)
  top c (a ∷ cs) pc ps =
      let (m, mem, above, free, pm) = top c cs pc ps.1 in
      elim (Bool-cases (dom a m)) [
        | inr e ↦ (m, skip mem, above, ground arith, pm)
        | inl e ↦ (
          a,
          Memᴰ.tail (Memᴰ.head refl),
          inr (elim above [ inl q ↦ rw (← q) e | inr q ↦ transitive a m c ps.0 pm pc e q ]),
          elim (Bool-cases (is_dominated dom (c ∷ cs) a)) [
            | inl d ↦ ground (
              arith,
              is_dominated_trans dom P irreflexive transitive (c ∷ cs) a m (pc, ps.1) ps.0 pm d e,
            )
            | inr d ↦ ground (arith, irreflexive a)
          ],
          ps.0,
        )
      ]
    where
      skip : {m : A} → Memᴰ m (c ∷ cs) → Memᴰ m (c ∷ a ∷ cs)
      skip (Memᴰ.head e) = Memᴰ.head e
      skip (Memᴰ.tail t) = Memᴰ.tail (Memᴰ.tail t)

  pub undominated_covers :
      (cs : List A) (c : A)
      → All P cs
      → Memᴰ c cs
      → (m : A) × Memᴰ m (undominated dom cs) × ((m ≡ c) ⊎ (dom m c ≡ true))
  undominated_covers cs c ps mem =
      let (m, at, above, free, pm) = top c cs (All-mem P c cs ps mem) ps in
      (
        m,
        rw (undominated_lem dom P irreflexive transitive cs ps)
            (mem-filterb (λ a. not (is_dominated dom cs a)) m cs (back at) (ground arith)),
        above,
      )
    where
      back : {m : A} → Memᴰ m (c ∷ cs) → Memᴰ m cs
      back (Memᴰ.head e) = rw e mem
      back (Memᴰ.tail t) = t
