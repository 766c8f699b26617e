-- ===== src/Controllers/Devices/Deletion.antt =====
-- The finalizers keep a device in the cluster until it is gone from the edge platform.
use yurt_device_controller.Prelude.{◌≡◌, refl, arith, Bool, true, false, []}
use yurt_device_controller.Prelude.Io.{Outcome, ok, fail, panic, Result}
use yurt_device_controller.Api.{Device, is_zero}
use yurt_device_controller.Clients.Errors.{is_not_found_err}
use yurt_device_controller.EdgeX.Names.{edgex_object_name, get_edge_device_name}
use yurt_device_controller.Controllers.Session.{Session, any, is_clearing, patch}
use yurt_device_controller.Controllers.Devices.Reconciler.{DeviceReconciler}
use yurt_device_controller.Controllers.Devices.Lifecycle.{remove_device, reconcile_delete_device}
use yurt_device_controller.Controllers.Devices.Reconcile.{
  after_delete, reconcile_device, reconcile_loaded,
}
use yurt_device_controller.Controllers.Devices.Traces.{after_delete-Keeps, update_conditions-Keeps}

-- The answer to a deletion on the edge platform says that the device is not there any more.
abbrev pub is_gone : Outcome (Unit {0}) → Bool
is_gone (ok _) = true
is_gone (fail e) = is_not_found_err e
is_gone panic = false

module _ {W : Type 0} (r : DeviceReconciler W) where
  abbrev pub deletion : Device → W → Outcome (Unit {0}) × W
  deletion d w = r.device_cli.delete (get_edge_device_name d edgex_object_name) w

  clearing_reconcile_delete_device :
      (s : Session W Device)
      → any is_clearing s.trace ≡ false
      → any is_clearing (reconcile_delete_device r s).1.trace ≡ true
      → (is_zero s.object.metadata.deletion_timestamp ≡ false)
        × (is_gone (deletion s.object s.world).0 ≡ true)
  unfolding reconcile_delete_device patch remove_device
  clearing_reconcile_delete_device s quiet h = ground arith

  after_delete_clears_nothing :
      (q : Result (Unit {0})) (s : Session W Device)
      → any is_clearing (after_delete r q s).1.trace ≡ any is_clearing s.trace
  after_delete_clears_nothing q s =
      after_delete-Keeps r is_clearing (λ _. refl) (λ _. refl) (λ _. refl) (λ _. refl) (λ _. refl)
        (λ _. refl) q s

  clearing_reconcile_device :
      (s : Session W Device)
      → any is_clearing (reconcile_device r s).1.trace
        ≡ any is_clearing (reconcile_delete_device r s).1.trace
  unfolding reconcile_device
  clearing_reconcile_device s = grind (arith, after_delete_clears_nothing)

  -- Whatever the calls answer, the reconciler clears the finalizers only of a device that is
  -- being deleted, and only after the edge platform has deleted it or has said that it has none of
  -- that name.
  pub cleared_after_edge_delete :
      (w : W) (d : Device)
      → any is_clearing (reconcile_loaded r w d).1.trace ≡ true
      → (is_zero d.metadata.deletion_timestamp ≡ false) × (is_gone (deletion d w).0 ≡ true)
  unfolding reconcile_loaded
  cleared_after_edge_delete w d h =
      let s : Session W Device = record { world = w; object = d; trace = [] } in
      ground (
        arith,
        clearing_reconcile_delete_device s refl,
        clearing_reconcile_device s,
        update_conditions-Keeps r is_clearing (λ _. refl) (reconcile_device r s).1,
      )
