-- ===== src/Tenant/Quota.antt =====
-- internal/tenant/quota.go. A reason is its kind with the projected use and the limit.
use optipilot_ai.Prelude.{
  subst, sym, ap, Float64, Option, Bool, if◌then◌else◌, pos, some, ◌≡◌, ltb_ℤ, none, ◌&&◌, ◌<ℤ◌,
  ◌↔◌, false, true, refl, ℤ, arith,
}
use optipilot_ai.Tenant.Types.{TenantState}

-- ResourceDelta
pub record ResourceDelta (F : Type 0) : Type 0 where
  pub additional_cores : F
  pub additional_memory_gib : F
  pub additional_cost_usd : F

pub data QuotaReason (F : Type 0) : Type 0 where
  no_state : QuotaReason F
  cores_exceeded memory_exceeded cost_exceeded : F → F → QuotaReason F

-- QuotaResult; `denied` has the reason.
pub data QuotaResult (F : Type 0) : Type 0 where
  allowed : QuotaResult F
  denied : QuotaReason F → QuotaResult F

above_zero : (z : ℤ) → (ltb_ℤ (pos 0) z ≡ true) ↔ (pos 0 <ℤ z)
above_zero z = ground arith

module _ {F : Type 0} ⦃fl : Float64 F⦄ where
  unfoldable pub check_cost : TenantState F → ResourceDelta F → QuotaResult F
  check_cost state delta =
      let projected = fl.add state.current_cost_usd delta.additional_cost_usd in
      if fl.lt (fl.of_int (pos 0)) state.max_monthly_cost_usd
        && fl.lt state.max_monthly_cost_usd projected
      then denied (cost_exceeded projected state.max_monthly_cost_usd)
      else allowed

  unfoldable pub check_memory : TenantState F → ResourceDelta F → QuotaResult F
  unfolding check_cost
  check_memory state delta =
      let projected = fl.add state.current_memory_gib delta.additional_memory_gib in
      let limit = fl.of_int state.max_memory_gib in
      if ltb_ℤ (pos 0) state.max_memory_gib && fl.lt limit projected
      then denied (memory_exceeded projected limit)
      else check_cost state delta

  unfoldable pub check_cores : TenantState F → ResourceDelta F → QuotaResult F
  unfolding check_memory
  check_cores state delta =
      let projected = fl.add state.current_cores delta.additional_cores in
      let limit = fl.of_int state.max_cores in
      if ltb_ℤ (pos 0) state.max_cores && fl.lt limit projected
      then denied (cores_exceeded projected limit)
      else check_memory state delta

  -- CheckQuota
  unfoldable pub check_quota : Option (TenantState F) → ResourceDelta F → QuotaResult F
  unfolding check_cores
  check_quota none delta = denied no_state
  check_quota (some state) delta = check_cores state delta

  -- Nothing that is limited goes beyond its limit.
  abbrev pub WithinBudgets : TenantState F → ResourceDelta F → Type 0
  WithinBudgets state delta =
      (pos 0 <ℤ state.max_cores
        → fl.lt (fl.of_int state.max_cores) (fl.add state.current_cores delta.additional_cores)
          ≡ false)
      × (pos 0 <ℤ state.max_memory_gib
          → fl.lt (fl.of_int state.max_memory_gib)
              (fl.add state.current_memory_gib delta.additional_memory_gib)
            ≡ false)
      × (fl.lt (fl.of_int (pos 0)) state.max_monthly_cost_usd ≡ true
          → fl.lt state.max_monthly_cost_usd
              (fl.add state.current_cost_usd delta.additional_cost_usd)
            ≡ false)

  guard_iff :
      (a b : Bool) (r : QuotaReason F) (q : QuotaResult F)
      → ((if a && b then denied r else q) ≡ allowed) ↔ ((a ≡ true → b ≡ false) × (q ≡ allowed))
  guard_iff true true r q =
      (λ e. absurd (cc), λ (f, e). absurd (let c : true ≡ false = f refl in cc))
  guard_iff true false r q = (λ e. (λ h. refl, e), λ (f, e). e)
  guard_iff false b r q = (λ e. (λ h. absurd (cc), e), λ (f, e). e)

  check_cores_iff :
      (s : TenantState F) (delta : ResourceDelta F)
      → (check_cores s delta ≡ allowed) ↔ WithinBudgets s delta
  unfolding check_cores check_memory check_cost
  check_cores_iff s delta =
      let zero_f = fl.of_int (pos 0) in
      let cores = guard_iff (ltb_ℤ (pos 0) s.max_cores) _ _ (check_memory s delta) in
      let memory = guard_iff (ltb_ℤ (pos 0) s.max_memory_gib) _ _ (check_cost s delta) in
      let cost = guard_iff (fl.lt zero_f s.max_monthly_cost_usd) _ _ allowed in
      (
        λ e.
            let (c, e') = cores.0 e in
            let (m, e'') = memory.0 e' in
            let (d, _) = cost.0 e'' in
            (λ h. c ((above_zero s.max_cores).1 h), λ h. m ((above_zero s.max_memory_gib).1 h), d),
        λ (c, m, d). cores.1 (
          λ h. c ((above_zero s.max_cores).0 h),
          memory.1 (λ h. m ((above_zero s.max_memory_gib).0 h), cost.1 (d, refl)),
        ),
      )

  -- CheckQuota allows a change exactly when there is a state and no limit above 0 is exceeded by what
  -- the change leads to.
  pub check_quota_iff :
      (state : Option (TenantState F)) (delta : ResourceDelta F)
      → (check_quota state delta ≡ allowed)
        ↔ ((s : TenantState F) × (state ≡ some s) × WithinBudgets s delta)
  unfolding check_quota
  check_quota_iff none delta = (λ e. cc, λ (s, e, w). cc)
  check_quota_iff (some s) delta = (
    λ e. (s, refl, (check_cores_iff s delta).0 e),
    λ (x, e, w).
        (check_cores_iff s delta).1 (
          subst (λ z. WithinBudgets z delta) (sym (ap (λ o. elim o [ none ↦ s | some y ↦ y ]) e))
            w),
  )
