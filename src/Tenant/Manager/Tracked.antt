-- ===== src/Tenant/Manager/Tracked.antt =====
-- Which tenants UpdateProfiles leaves tracked, and with what.
use optipilot_ai.Prelude.{
  Float64, List, Map, Option, String, insert, lookup, [], some, ◌∷◌, ◌≡◌, if-split, if◌then◌else◌,
  none, refl, ◌∙◌, ap, str_eq, lookup-insert, sym, eq_of_str_eq, Option-cases, false, lookup_or,
  Bool-cases, inl, inr, str_eq-false, true, str_eq_refl,
}
use optipilot_ai.Tenant.Types.{TenantBudgets, FairSharePolicy, TenantProfile, TenantState}
use optipilot_ai.Tenant.Manager.{
  Manager, incoming_loop, remaining, empty_state, with_budgets, with_policy, updated, update_loop,
  update_profiles, get_state,
}

-- Each key stands once.
abbrev Distinct : {V : Type 0} → Map V → Type 0
Distinct [] = Unit
Distinct (entry ∷ rest) = (lookup entry.0 rest ≡ none) × Distinct rest

insert-Distinct :
    {V : Type 0} (name : String) (v : V) (m : Map V) → Distinct m → Distinct (insert name v m)
unfolding insert lookup
insert-Distinct name v [] d = (refl, tt)
insert-Distinct name v (entry ∷ rest) d =
    if-split Distinct (str_eq entry.0 name) ((name, v) ∷ rest) (entry ∷ insert name v rest)
      (λ e. (ap (λ z. lookup z rest) (sym (eq_of_str_eq entry.0 name e)) ∙ d.0, d.1))
      (λ e. (kept e, insert-Distinct name v rest d.1))
  where
    kept : str_eq entry.0 name ≡ false → lookup entry.0 (insert name v rest) ≡ none
    kept e =
        let apart : str_eq name entry.0 ≡ false = str_eq-false name entry.0 (λ q.
          let t : str_eq entry.0 name ≡ true = ap (λ z. str_eq z name) (sym q) ∙ str_eq_refl name in
          cc) in
        lookup-insert name entry.0 v rest ∙ rw apart d.0

incoming_loop-Distinct :
    (ps : List TenantProfile) (incoming : Map TenantProfile)
    → Distinct incoming
    → Distinct (incoming_loop incoming ps)
unfolding incoming_loop
incoming_loop-Distinct [] incoming d = d
incoming_loop-Distinct (p ∷ ps) incoming d =
    incoming_loop-Distinct ps (insert p.name p incoming) (insert-Distinct p.name p incoming d)

-- The last profile of a name, after one found so far.
abbrev pub last_named : String → Option TenantProfile → List TenantProfile → Option TenantProfile
last_named name found [] = found
last_named name found (p ∷ ps) = last_named name (if str_eq p.name name then some p else found) ps

lookup-incoming_loop :
    (name : String) (ps : List TenantProfile) (incoming : Map TenantProfile)
    → lookup name (incoming_loop incoming ps) ≡ last_named name (lookup name incoming) ps
unfolding incoming_loop
lookup-incoming_loop name [] incoming = refl
lookup-incoming_loop name (p ∷ ps) incoming =
    lookup-incoming_loop name ps (insert p.name p incoming)
    ∙ ap (λ found. last_named name found ps) (lookup-insert p.name name p incoming)

module _ {F : Type 0} where
  -- A tenant that was tracked and is still wanted.
  abbrev still : Option TenantProfile → Option (TenantState F) → Option (TenantState F)
  still none s = none
  still (some p) s = s

  still-none : (o : Option TenantProfile) → none ≡ still o none
  still-none none = refl
  still-none (some p) = refl

  lookup-remaining :
      (name : String) (incoming : Map TenantProfile) (tenants : Map (TenantState F))
      → lookup name (remaining incoming tenants)
        ≡ still (lookup name incoming) (lookup name tenants)
  unfolding remaining lookup
  lookup-remaining name incoming [] = still-none (lookup name incoming)
  lookup-remaining name incoming (entry ∷ rest) = elim (Option-cases (lookup entry.0 incoming)) [
    | inl e ↦ elim (Bool-cases (str_eq entry.0 name)) [
      | inl q ↦
          let gone : lookup name incoming ≡ none =
            ap (λ z. lookup z incoming) (sym (eq_of_str_eq entry.0 name q)) ∙ e in
          rw (remaining, e) (lookup-remaining name incoming rest ∙ rw gone refl)
      | inr q ↦ rw (remaining, e, q) (lookup-remaining name incoming rest)
    ]
    | inr (p, e) ↦ elim (Bool-cases (str_eq entry.0 name)) [
      | inl q ↦
          let there : lookup name incoming ≡ some p =
            ap (λ z. lookup z incoming) (sym (eq_of_str_eq entry.0 name q)) ∙ e in
          rw (remaining, e, q, there) refl
      | inr q ↦ rw (remaining, e, q) (lookup-remaining name incoming rest)
    ]
  ]

module _ {F : Type 0} ⦃fl : Float64 F⦄ (parse_float : String → Option F) where
  -- The state of a tenant after the update from its profile, if it has one.
  abbrev pub after_profile :
      String → Option TenantProfile → Option (TenantState F) → Option (TenantState F)
  after_profile name none s = s
  after_profile name (some p) s =
      some (updated parse_float name p (elim s [ none ↦ empty_state | some x ↦ x ]))

  lookup-update_loop :
      (name : String) (incoming : Map TenantProfile) (tenants : Map (TenantState F))
      → Distinct incoming
      → lookup name (update_loop parse_float tenants incoming)
        ≡ after_profile name (lookup name incoming) (lookup name tenants)
  unfolding update_loop lookup
  lookup-update_loop name [] tenants d = refl
  lookup-update_loop name ((n, p) ∷ rest) tenants d =
      let st : TenantState F = updated parse_float n p (lookup_or empty_state n tenants) in
      let tenants' = insert n st tenants in
      lookup-update_loop name rest tenants' d.1 ∙ elim (Bool-cases (str_eq n name)) [
        | inl q ↦
            let same : n ≡ name = eq_of_str_eq n name q in
            let only : lookup name rest ≡ none = ap (λ z. lookup z rest) (sym same) ∙ d.0 in
            rw (only, q)
              (lookup-insert n name st tenants
                ∙ rw q (
                    ap (λ z. some (updated parse_float z p (lookup_or empty_state z tenants)))
                      same))
        | inr q ↦ rw q (
            ap (after_profile name (lookup name rest))
              (lookup-insert n name st tenants ∙ rw q refl))
      ]

  -- The state of a tenant by the profile it has and the state before.
  abbrev pub tracked :
      String → Option TenantProfile → Option (TenantState F) → Option (TenantState F)
  tracked name none s = none
  tracked name (some p) s =
      some (updated parse_float name p (elim s [ none ↦ empty_state | some x ↦ x ]))

  after_profile-still :
      (name : String) (o : Option TenantProfile) (s : Option (TenantState F))
      → after_profile name o (still o s) ≡ tracked name o s
  after_profile-still name none s = refl
  after_profile-still name (some p) s = refl

  -- After UpdateProfiles a tenant is tracked exactly when one of the profiles has its name, with the
  -- state that the last of them leads to from the one it had, or from an empty one.
  pub update_profiles_lem :
      (m : Manager F) (ps : List TenantProfile) (name : String)
      → get_state (update_profiles parse_float m ps) name
        ≡ tracked name (last_named name none ps) (get_state m name)
  unfolding update_profiles get_state lookup
  update_profiles_lem m ps name =
      let incoming = incoming_loop [] ps in
      lookup-update_loop name incoming (remaining incoming m.tenants)
        (incoming_loop-Distinct ps [] tt)
      ∙ ap (after_profile name (lookup name incoming)) (lookup-remaining name incoming m.tenants)
      ∙ after_profile-still name (lookup name incoming) (lookup name m.tenants)
      ∙ ap (λ o. tracked name o (lookup name m.tenants)) (lookup-incoming_loop name ps [])

  cost-with_policy :
      (o : Option FairSharePolicy) (s : TenantState F)
      → (with_policy parse_float o s).max_monthly_cost_usd ≡ s.max_monthly_cost_usd
  unfolding with_policy
  cost-with_policy none s = refl
  cost-with_policy (some f) s = refl

  cost-with_budgets :
      (b : TenantBudgets) (s : TenantState F)
      → parse_float b.max_monthly_cost_usd ≡ none
      → (with_budgets parse_float (some b) s).max_monthly_cost_usd ≡ s.max_monthly_cost_usd
  unfolding with_budgets
  cost-with_budgets b s k = elim (Bool-cases (str_eq b.max_monthly_cost_usd "")) [
    | inl e ↦ rw e refl
    | inr e ↦ rw (e, k) refl
  ]

  -- A budget whose cost cannot be read keeps the cost limit of the state before.
  pub stale_cost_kept :
      (m : Manager F) (p : TenantProfile) (b : TenantBudgets) (s : TenantState F)
      → get_state m p.name ≡ some s
      → p.spec.budgets ≡ some b
      → parse_float b.max_monthly_cost_usd ≡ none
      → (s' : TenantState F) × (get_state (update_profiles parse_float m (p ∷ [])) p.name ≡ some s')
        × (s'.max_monthly_cost_usd ≡ s.max_monthly_cost_usd)
  unfolding updated
  stale_cost_kept m p b s e h k =
      let named : TenantState F = record s {
        name = p.name;
        tier = p.spec.tier;
        weight = p.spec.weight;
        namespaces = p.spec.namespaces;
      } in
      let found : last_named p.name none (p ∷ []) ≡ some p = rw (str_eq_refl p.name) refl in
      (
        updated parse_float p.name p s,
        update_profiles_lem m (p ∷ []) p.name
            ∙ ap (λ o. tracked p.name o (get_state m p.name)) found
            ∙ ap (tracked p.name (some p)) e,
        cost-with_policy p.spec.fair_share_policy (with_budgets parse_float p.spec.budgets named)
            ∙ ap (λ o. (with_budgets parse_float o named).max_monthly_cost_usd) h
            ∙ cost-with_budgets b named k,
      )
