-- ===== src/Controllers/Devices/Quiet.antt =====
-- When the reconciler leaves the edge platform alone.
use yurt_device_controller.Prelude.{eq_iff, ◌≡◌, refl, arith, true, false, [], is_empty}
use yurt_device_controller.Prelude.Io.{ok}
use yurt_device_controller.Api.{Device, is_zero}
use yurt_device_controller.Controllers.Session.{
  Session, any, is_edge_write, is_creation, is_property_set,
}
use yurt_device_controller.Controllers.Devices.Reconciler.{DeviceReconciler}
use yurt_device_controller.Controllers.Devices.Lifecycle.{reconcile_delete_device}
use yurt_device_controller.Controllers.Devices.Update.{
  reconcile_update_device, desired_status, reconcile_values, settle_update,
}
use yurt_device_controller.Controllers.Devices.Traces.{
  finish_update-Keeps, update_conditions-Keeps, reconcile_update_device-Keeps,
}
use yurt_device_controller.Controllers.Devices.Reconcile.{
  after_delete, synchronize, reconcile_device, reconcile_loaded,
}

-- A device that is not being deleted and already has a finalizer.
pub record IsSettled (d : Device) : Type 0 where
  pub alive : is_zero d.metadata.deletion_timestamp ≡ true
  pub guarded : is_empty d.metadata.finalizers ≡ false

module _ {W : Type 0} (r : DeviceReconciler W) where
  settled_delete :
      (s : Session W Device) → IsSettled s.object → reconcile_delete_device r s ≡ (ok tt, s)
  unfolding reconcile_delete_device
  settled_delete s h = ground arith

  settled_reconcile :
      (s : Session W Device) → IsSettled s.object → reconcile_device r s ≡ synchronize r s.object s
  unfolding reconcile_device after_delete
  settled_reconcile s h = ground (arith, settled_delete s h)

  -- A settled device that is synced and not managed by the cloud is never changed on the edge
  -- platform.
  pub unmanaged_without_edge_writes :
      (w : W) (d : Device)
      → IsSettled d
      → d.status.synced ≡ true
      → d.spec.managed ≡ false
      → any is_edge_write (reconcile_loaded r w d).1.trace ≡ false
  unfolding reconcile_loaded synchronize
  unmanaged_without_edge_writes w d h synced unmanaged =
      let s : Session W Device = record { world = w; object = d; trace = [] } in
      ground (
        arith,
        settled_reconcile s h,
        update_conditions-Keeps r is_edge_write (λ _. refl) (reconcile_device r s).1,
      )

  -- A settled device that is synced is not created on the edge platform again.
  pub synced_without_creation :
      (w : W) (d : Device)
      → IsSettled d
      → d.status.synced ≡ true
      → any is_creation (reconcile_loaded r w d).1.trace ≡ false
  unfolding reconcile_loaded synchronize
  synced_without_creation w d h synced =
      let s : Session W Device = record { world = w; object = d; trace = [] } in
      ground (
        arith,
        settled_reconcile s h,
        update_conditions-Keeps r is_creation (λ _. refl) (reconcile_device r s).1,
        reconcile_update_device-Keeps r is_creation (λ _. refl) (λ _. refl) (λ _. refl) (λ _. refl)
            s,
      )

  quiet_settle_update :
      (d : Device) (s : Session W Device)
      → any is_property_set s.trace ≡ false
      → any is_property_set (settle_update r d s).1.trace ≡ true
      → ((desired_status d).operating_state ≡ "UP") × ((desired_status d).admin_state ≡ "UNLOCKED")
  unfolding settle_update reconcile_values
  quiet_settle_update d s quiet h = ground (
    arith,
    eq_iff (desired_status d).operating_state "UP",
    eq_iff (desired_status d).admin_state "UNLOCKED",
    finish_update-Keeps r is_property_set (λ _. refl) (desired_status d, []) s,
  )

  -- The handling of a managed device sets properties only if the device is to be up and unlocked.
  pub property_set_needs_up :
      (s : Session W Device)
      → any is_property_set s.trace ≡ false
      → any is_property_set (reconcile_update_device r s).1.trace ≡ true
      → ((desired_status s.object).operating_state ≡ "UP")
        × ((desired_status s.object).admin_state ≡ "UNLOCKED")
  unfolding reconcile_update_device
  property_set_needs_up s quiet h = grind (arith, quiet_settle_update)
