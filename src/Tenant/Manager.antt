-- ===== src/Tenant/Manager.antt =====
-- internal/tenant/manager.go. Prometheus, the clock, ParseFloat and the texts of the queries are arguments.
-- A state is kept in the map and handed out as a copy, so it is a value here.
pub mod Tracked
use optipilot_ai.Prelude.{
  Float64, String, List, Option, Map, ℕ, [], insert, length, lookup, pos, some, ◌∷◌, false,
  if◌then◌else◌, lookup_or, none, ◌++◌, str_eq,
}
use optipilot_ai.Tenant.Types.{TenantBudgets, FairSharePolicy, TenantProfile, TenantState}

-- Manager without its dependencies.
pub record Manager (F : Type 0) : Type 0 where
  pub tenants : Map (TenantState F)
  pub profiles : Map TenantProfile

-- PrometheusClient.Query, and the three queries of Refresh for some namespaces.
pub record UsageSource (F : Type 0) : Type 0 where
  pub query : String → Option F × String
  pub cpu_query : List String → String
  pub memory_query : List String → String
  pub cost_query : List String → String

-- The loop that fills `incoming`.
unfoldable pub incoming_loop : Map TenantProfile → List TenantProfile → Map TenantProfile
unfolding insert
incoming_loop incoming [] = incoming
incoming_loop incoming (p ∷ ps) = incoming_loop (insert p.name p incoming) ps

-- The loop that removes the tenants that are not incoming.
unfoldable pub remaining :
    {F : Type 0} → Map TenantProfile → Map (TenantState F) → Map (TenantState F)
unfolding lookup
remaining incoming [] = []
remaining incoming (entry ∷ rest) = elim (lookup entry.0 incoming) [
  | none ↦ remaining incoming rest
  | some p ↦ entry ∷ remaining incoming rest
]

module _ {F : Type 0} ⦃fl : Float64 F⦄ where
  -- NewManager
  unfoldable pub new_manager : Manager F
  new_manager = record { tenants = []; profiles = [] }

  -- `&TenantState{}`
  abbrev pub empty_state : TenantState F
  empty_state = record {
    name = "";
    tier = "";
    weight = pos 0;
    namespaces = [];
    current_cores = fl.of_int (pos 0);
    current_memory_gib = fl.of_int (pos 0);
    current_cost_usd = fl.of_int (pos 0);
    max_cores = pos 0;
    max_memory_gib = pos 0;
    max_monthly_cost_usd = fl.of_int (pos 0);
    guaranteed_cores_percent = pos 0;
    burstable = false;
    max_burst_percent = pos 0;
    fairness_score = fl.of_int (pos 0);
    allocation_status = "";
    last_refreshed = none;
  }

  module _ (parse_float : String → Option F) where
    -- The budgets' part of an update.
    unfoldable pub with_budgets : Option TenantBudgets → TenantState F → TenantState F
    with_budgets none s = record s {
      max_cores = pos 0;
      max_memory_gib = pos 0;
      max_monthly_cost_usd = fl.of_int (pos 0);
    }
    with_budgets (some b) s = record s {
      max_cores = b.max_cores;
      max_memory_gib = b.max_memory_gib;
      max_monthly_cost_usd =
          if str_eq b.max_monthly_cost_usd ""
          then s.max_monthly_cost_usd
          else elim (parse_float b.max_monthly_cost_usd) [
            | none ↦ s.max_monthly_cost_usd
            | some v ↦ v
          ];
    }

    -- The policy's part of an update.
    unfoldable pub with_policy : Option FairSharePolicy → TenantState F → TenantState F
    with_policy none s = record s {
      guaranteed_cores_percent = pos 0;
      burstable = false;
      max_burst_percent = pos 0;
    }
    with_policy (some f) s = record s {
      guaranteed_cores_percent = f.guaranteed_cores_percent;
      burstable = f.burstable;
      max_burst_percent = f.max_burst_percent;
    }

    -- A state updated from a profile.
    unfoldable pub updated : String → TenantProfile → TenantState F → TenantState F
    unfolding with_budgets with_policy
    updated name p s = with_policy p.spec.fair_share_policy (
        with_budgets p.spec.budgets (record s {
          name = name;
          tier = p.spec.tier;
          weight = p.spec.weight;
          namespaces = p.spec.namespaces;
        }))

    -- The loop that adds or updates.
    unfoldable pub update_loop : Map (TenantState F) → Map TenantProfile → Map (TenantState F)
    unfolding lookup insert updated
    update_loop tenants [] = tenants
    update_loop tenants ((name, p) ∷ rest) =
        let s : TenantState F = lookup_or empty_state name tenants in
        update_loop (insert name (updated name p s) tenants) rest

    -- UpdateProfiles
    unfoldable pub update_profiles : Manager F → List TenantProfile → Manager F
    unfolding incoming_loop remaining update_loop
    update_profiles m profiles =
        let incoming = incoming_loop [] profiles in
        record {
          tenants = update_loop (remaining incoming m.tenants) incoming;
          profiles = incoming;
        }

  -- GetState
  unfoldable pub get_state : Manager F → String → Option (TenantState F)
  unfolding lookup
  get_state m name = lookup name m.tenants

  -- TenantCount
  unfoldable pub tenant_count : Manager F → ℕ
  tenant_count m = length m.tenants

  -- A query, with 0 and the error when it fails.
  abbrev pub queried : Option F × String → F × List String
  queried (some v, text) = (v, [])
  queried (none, error) = (fl.of_int (pos 0), error ∷ [])

  -- Refresh for one tenant, at the time that the clock shows for it, with the errors.
  unfoldable pub refresh_tenant :
      UsageSource F
      → (String → ℕ)
      → Map (TenantState F)
      → String
      → List String
      → Map (TenantState F) × List String
  unfolding lookup insert
  refresh_tenant source now tenants name [] = (tenants, [])
  refresh_tenant source now tenants name (n ∷ ns) =
      let (cores, e) = queried (source.query (source.cpu_query (n ∷ ns))) in
      let (bytes, e') = queried (source.query (source.memory_query (n ∷ ns))) in
      let (cost, e'') = queried (source.query (source.cost_query (n ∷ ns))) in
      let errors = e ++ e' ++ e'' in
      elim (lookup name tenants) [
        | none ↦ (tenants, errors)
        | some s ↦ (
          insert name
              (record s {
                current_cores = cores;
                current_memory_gib = fl.div bytes (fl.of_int (pos 1_073_741_824));
                current_cost_usd = cost;
                last_refreshed = some (now name);
              })
              tenants,
          errors,
        )
      ]

  -- The loop of Refresh over the entries copied at its start.
  unfoldable pub refresh_loop :
      UsageSource F
      → (String → ℕ)
      → Map (TenantState F)
      → Map (TenantState F)
      → Map (TenantState F) × List String
  unfolding refresh_tenant
  refresh_loop source now tenants [] = (tenants, [])
  refresh_loop source now tenants ((name, s) ∷ rest) =
      let (tenants', errors) = refresh_tenant source now tenants name s.namespaces in
      let (tenants'', later) = refresh_loop source now tenants' rest in (tenants'', errors ++ later)

  -- Refresh, with the errors that it joins.
  unfoldable pub refresh : UsageSource F → (String → ℕ) → Manager F → Manager F × List String
  unfolding refresh_loop
  refresh source now m =
      let (tenants, errors) = refresh_loop source now m.tenants m.tenants in
      (record m { tenants = tenants }, errors)
