-- ===== src/Tenant/Types.antt =====
-- internal/tenant/manager.go and api/tenant/v1alpha1/tenantprofile_types.go: what is known of a tenant.
-- Times are nanoseconds, `none` for the zero time.
use optipilot_ai.Prelude.{Bool, String, List, Option, ℕ, ℤ}

-- TenantBudgets
pub record TenantBudgets : Type 0 where
  pub max_monthly_cost_usd : String
  pub max_cores : ℤ
  pub max_memory_gib : ℤ
  pub max_gpus : ℤ

-- FairSharePolicy
pub record FairSharePolicy : Type 0 where
  pub guaranteed_cores_percent : ℤ
  pub burstable : Bool
  pub max_burst_percent : ℤ

-- TenantProfileSpec
pub record TenantProfileSpec : Type 0 where
  pub tier : String
  pub weight : ℤ
  pub namespaces : List String
  pub budgets : Option TenantBudgets
  pub fair_share_policy : Option FairSharePolicy

-- TenantProfile, its name and spec.
pub record TenantProfile : Type 0 where
  pub name : String
  pub spec : TenantProfileSpec

-- TenantState
pub record TenantState (F : Type 0) : Type 0 where
  pub name : String
  pub tier : String
  pub weight : ℤ
  pub namespaces : List String
  pub current_cores : F
  pub current_memory_gib : F
  pub current_cost_usd : F
  pub max_cores : ℤ
  pub max_memory_gib : ℤ
  pub max_monthly_cost_usd : F
  pub guaranteed_cores_percent : ℤ
  pub burstable : Bool
  pub max_burst_percent : ℤ
  pub fairness_score : F
  pub allocation_status : String
  pub last_refreshed : Option ℕ
