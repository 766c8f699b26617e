-- ===== src/Controllers/DeviceServices.antt =====
-- pkg/controllers/deviceservice_controller.go. `Lifecycle` has deletion and creation, `Reconcile`
-- the update and the entry point. The other modules prove what these do.
pub mod Safe
pub mod OnEdgex
pub mod Convergence
pub mod Lifecycle
pub mod Reconcile
pub mod Traces
pub mod Deletion
pub mod Creation
pub mod Outcomes
pub mod Setup
