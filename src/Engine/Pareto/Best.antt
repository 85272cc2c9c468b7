-- ===== src/Engine/Pareto/Best.antt =====
-- SelectBest returns a member of the front with the highest weighted score, and among those of that
-- score one that disrupts the current state least.
use optipilot_ai.Prelude.{
  ◌≡◌, true, false, arith, Float64, IsNumber, IsOrdered, ge_trans, List, All, Memᴰ, ◌∷◌, Bool-cases,
  inl, inr, [], ◌≢◌, some, refl,
}
use optipilot_ai.Engine.Types.{CurrentState, ScoredCandidate}
use optipilot_ai.Engine.Pareto.{disruption, select_loop, select_best}

module _ {F : Type 0} ⦃fl : Float64 F⦄ (current : CurrentState F) where
  -- Not worse than `c`: no lower weighted score, and at the same one no more disruption.
  pub record IsAsGood (b c : ScoredCandidate F) : Type 0 where
    pub score_ge : fl.lt b.score.weighted c.score.weighted ≡ false
    pub calmer :
        fl.eq c.score.weighted b.score.weighted ≡ true
        → fl.lt (disruption c.plan current) (disruption b.plan current) ≡ false

  abbrev pub IsRanked : ScoredCandidate F → Type 0
  IsRanked c = IsNumber c.score.weighted × IsNumber (disruption c.plan current)

  module _ (laws : IsOrdered F) where
    open laws use {lt_irrefl, lt_trans, lt_total, lt-eq, eq-lt, eq_symm, eq_trans}

    IsAsGood-refl : (c : ScoredCandidate F) → IsAsGood c c
    IsAsGood-refl c = record {
      score_ge = lt_irrefl c.score.weighted;
      calmer = λ _. lt_irrefl (disruption c.plan current);
    }

    eq_between :
        (x y z : F)
        → IsNumber x
        → IsNumber y
        → fl.lt x y ≡ false
        → fl.lt y z ≡ false
        → fl.eq z x ≡ true
        → (fl.eq y x ≡ true) × (fl.eq z y ≡ true)
    eq_between x y z nx ny p q e =
        ground (arith, lt_total x y nx ny, eq_symm x y, lt-eq y x z, eq_symm z x, eq_trans z x y)

    IsAsGood-trans :
        (a b c : ScoredCandidate F)
        → IsRanked a
        → IsRanked b
        → IsRanked c
        → IsAsGood a b
        → IsAsGood b c
        → IsAsGood a c
    IsAsGood-trans a b c na nb nc p q = record {
      score_ge =
          ge_trans laws a.score.weighted b.score.weighted c.score.weighted na.0 nb.0 nc.0 p.score_ge
            q.score_ge;
      calmer = λ e.
          let (e₁, e₂) =
            eq_between a.score.weighted b.score.weighted c.score.weighted na.0 nb.0 p.score_ge
              q.score_ge e in
          ge_trans laws (disruption c.plan current) (disruption b.plan current)
            (disruption a.plan current) nc.1 nb.1 na.1 (q.calmer e₂) (p.calmer e₁);
    }

    IsAsGood-of_lt :
        (b c : ScoredCandidate F) → fl.lt b.score.weighted c.score.weighted ≡ true → IsAsGood c b
    IsAsGood-of_lt b c h = record {
      score_ge = ground (
        arith,
        lt_irrefl b.score.weighted,
        lt_trans b.score.weighted c.score.weighted b.score.weighted h,
      );
      calmer = λ e. ground (
        arith,
        lt_irrefl b.score.weighted,
        lt-eq b.score.weighted c.score.weighted b.score.weighted h,
        eq_symm b.score.weighted c.score.weighted e,
      );
    }

    IsAsGood-of_calmer :
        (b c : ScoredCandidate F)
        → fl.eq c.score.weighted b.score.weighted ≡ true
        → fl.lt (disruption c.plan current) (disruption b.plan current) ≡ true
        → IsAsGood c b
    IsAsGood-of_calmer b c e h = record {
      score_ge = ground (
        arith,
        lt_irrefl c.score.weighted,
        eq_symm c.score.weighted b.score.weighted e,
        lt-eq c.score.weighted b.score.weighted c.score.weighted,
      );
      calmer = λ _. ground (
        arith,
        lt_irrefl (disruption b.plan current),
        lt_trans (disruption b.plan current) (disruption c.plan current)
            (disruption b.plan current),
      );
    }

    -- `r` came out of the loop over `cs` that started with `b` as the best so far.
    record IsBestOf (r b : ScoredCandidate F) (cs : List (ScoredCandidate F)) : Type 0 where
      chosen : Memᴰ r (b ∷ cs)
      ranked : IsRanked r
      first_good : IsAsGood r b
      rest_good : All (IsAsGood r) cs

    IsBestOf-cons :
        (r b c : ScoredCandidate F) (cs : List (ScoredCandidate F))
        → IsRanked b
        → IsRanked c
        → IsAsGood c b
        → IsBestOf r c cs
        → IsBestOf r b (c ∷ cs)
    IsBestOf-cons r b c cs nb nc g h = record {
      chosen = Memᴰ.tail h.chosen;
      ranked = h.ranked;
      first_good = IsAsGood-trans r c b h.ranked nc nb h.first_good g;
      rest_good = (h.first_good, h.rest_good);
    }

    IsBestOf-keep :
        (r b c : ScoredCandidate F) (cs : List (ScoredCandidate F))
        → IsRanked b
        → IsRanked c
        → IsAsGood b c
        → IsBestOf r b cs
        → IsBestOf r b (c ∷ cs)
    IsBestOf-keep r b c cs nb nc g h = record {
      chosen = skip h.chosen;
      ranked = h.ranked;
      first_good = h.first_good;
      rest_good = (IsAsGood-trans r b c h.ranked nb nc h.first_good g, h.rest_good);
    }
      where
        skip : Memᴰ r (b ∷ cs) → Memᴰ r (b ∷ c ∷ cs)
        skip (Memᴰ.head e) = Memᴰ.head e
        skip (Memᴰ.tail t) = Memᴰ.tail (Memᴰ.tail t)

    select_loop-IsBestOf :
        (b : ScoredCandidate F) (cs : List (ScoredCandidate F))
        → IsRanked b
        → All IsRanked cs
        → IsBestOf (select_loop current b (disruption b.plan current) cs) b cs
    unfolding select_loop
    select_loop-IsBestOf b [] nb ns = record {
      chosen = Memᴰ.head refl;
      ranked = nb;
      first_good = IsAsGood-refl b;
      rest_good = tt;
    }
    select_loop-IsBestOf b (c ∷ cs) nb (nc, ns) =
        let replace = select_loop-IsBestOf c cs nc ns in
        let keep = select_loop-IsBestOf b cs nb ns in
        elim (Bool-cases (fl.lt b.score.weighted c.score.weighted)) [
          | inl p ↦ rw p (IsBestOf-cons _ b c cs nb nc (IsAsGood-of_lt b c p) replace)
          | inr p ↦ elim (Bool-cases (fl.eq c.score.weighted b.score.weighted)) [
            | inr q ↦
                rw (p, q)
                  (IsBestOf-keep _ b c cs nb nc (record { score_ge = p; calmer = λ e. cc }) keep)
            | inl q ↦
                elim (Bool-cases (fl.lt (disruption c.plan current) (disruption b.plan current))) [
                  | inl d ↦
                      rw (p, q, d)
                        (IsBestOf-cons _ b c cs nb nc (IsAsGood-of_calmer b c q d) replace)
                  | inr d ↦
                      rw (p, q, d)
                        (IsBestOf-keep _ b c cs nb nc (record { score_ge = p; calmer = λ e. d })
                          keep)
                ]
          ]
        ]

    -- SelectBest over a front that is not empty, all of whose weighted scores and disruptions are
    -- numbers, returns a member of it that no member beats: none has a higher weighted score, and none
    -- of the same weighted score disrupts the current state less.
    pub select_best_optimal :
        (front : List (ScoredCandidate F))
        → All IsRanked front
        → front ≢ []
        → (b : ScoredCandidate F) × (select_best front current ≡ some b)
          × Memᴰ b front
          × All (IsAsGood b) front
    unfolding select_best
    select_best_optimal [] ns ne = absurd (ne refl)
    select_best_optimal (c ∷ []) ns ne = (c, refl, Memᴰ.head refl, (IsAsGood-refl c, tt))
    select_best_optimal (c ∷ d ∷ cs) ns ne =
        let best = select_loop-IsBestOf c (d ∷ cs) ns.0 ns.1 in
        (
          select_loop current c (disruption c.plan current) (d ∷ cs),
          refl,
          best.chosen,
          (best.first_good, best.rest_good),
        )
