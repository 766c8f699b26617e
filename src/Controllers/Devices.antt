-- ===== src/Controllers/Devices.antt =====
-- pkg/controllers/device_controller.go. `Properties` has the loop over the desired properties,
-- `Update` the handling of a managed device, `Lifecycle` deletion and creation, and `Reconcile` the
-- entry point. The other modules prove what these do.
pub mod Safe
pub mod OnEdgex
pub mod Ends
pub mod Reconciler
pub mod Properties
pub mod Update
pub mod Lifecycle
pub mod Reconcile
pub mod Traces
pub mod Worlds
pub mod Orphans
pub mod Convergence
pub mod Deletion
pub mod Quiet
pub mod Outcomes
pub mod Creation
pub mod States
pub mod Setup
