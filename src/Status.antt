-- ===== src/Status.antt =====
-- The ClusterOperator status of the operator: pkg/client/condition.go and
-- pkg/client/status_reporter.go.
pub mod Conditions
pub mod Reporter
mod Tests
