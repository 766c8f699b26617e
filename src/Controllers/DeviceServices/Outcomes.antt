-- ===== src/Controllers/DeviceServices/Outcomes.antt =====
-- How a call of the reconciler of device services ends, and what it leaves alone.
use yurt_device_controller.Prelude.{◌≡◌, refl, arith, true, false, [], is_empty}
use yurt_device_controller.Prelude.Io.{Error, fail, is_conflict}
use yurt_device_controller.Api.{DeviceService, is_zero}
use yurt_device_controller.Controllers.Session.{Session, any, is_edge_write}
use yurt_device_controller.Controllers.DeviceServices.Lifecycle.{
  DeviceServiceReconciler, reconcile_delete_device_service,
}
use yurt_device_controller.Controllers.DeviceServices.Reconcile.{
  synchronize_service, reconcile_service, reconcile_loaded, after_service_delete,
}
use yurt_device_controller.Controllers.DeviceServices.Traces.{update_service_conditions-Keeps}

module _ {W : Type 0} (r : DeviceServiceReconciler W) where
  -- A conflict between writers of a device service that is created or updated is retried: it never
  -- leaves the reconciler as an error.
  pub service_conflict_is_retried :
      (d : DeviceService) (s : Session W DeviceService) {e : Error}
      → (synchronize_service r d s).0 ≡ fail e
      → is_conflict e ≡ false
  unfolding synchronize_service
  service_conflict_is_retried d s h = ground arith

  unmanaged_reconcile_service :
      (s : Session W DeviceService)
      → is_zero s.object.metadata.deletion_timestamp ≡ true
      → is_empty s.object.metadata.finalizers ≡ false
      → s.object.status.synced ≡ true
      → s.object.spec.managed ≡ false
      → (reconcile_service r s).1 ≡ s
  unfolding reconcile_service reconcile_delete_device_service after_service_delete
      synchronize_service
  unmanaged_reconcile_service s alive guarded synced unmanaged = ground arith

  -- A device service that is alive, has a finalizer, is synced and is not managed by the cloud is
  -- never changed on the edge platform.
  pub unmanaged_service_without_edge_writes :
      (w : W) (d : DeviceService)
      → is_zero d.metadata.deletion_timestamp ≡ true
      → is_empty d.metadata.finalizers ≡ false
      → d.status.synced ≡ true
      → d.spec.managed ≡ false
      → any is_edge_write (reconcile_loaded r w d).1.trace ≡ false
  unfolding reconcile_loaded
  unmanaged_service_without_edge_writes w d alive guarded synced unmanaged =
      let s : Session W DeviceService = record { world = w; object = d; trace = [] } in
      ground (
        arith,
        unmanaged_reconcile_service s alive guarded synced unmanaged,
        update_service_conditions-Keeps r is_edge_write (λ _. refl) (reconcile_service r s).1,
      )
