-- ===== src/Tenant.antt =====
-- internal/tenant: quotas, fair shares, the fairness index, noisy neighbours and the manager of usage.
pub mod Types
pub mod Quota
pub mod Fairness
pub mod Shares
pub mod Noisy
pub mod Manager
mod Tests
