-- ===== src/Controllers/DeviceProfiles.antt =====
-- pkg/controllers/deviceprofile_controller.go. `Reconcile` has the reconciler; the other modules
-- prove what it does.
pub mod Safe
pub mod OnEdgex
pub mod Convergence
pub mod Reconcile
pub mod Deletion
pub mod Creation
pub mod Setup
