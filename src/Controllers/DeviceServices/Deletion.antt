-- ===== src/Controllers/DeviceServices/Deletion.antt =====
-- The order of a deletion: the finalizers of a device service are cleared before the edge platform is
-- asked to delete it.
use yurt_device_controller.Prelude.{◌≡◌, refl, arith, true, false, [], eq_iff}
use yurt_device_controller.Prelude.Io.{Error, ok, fail, value, is_not_found}
use yurt_device_controller.Api.{DeviceService, is_zero}
use yurt_device_controller.Clients.Errors.{is_not_found_err}
use yurt_device_controller.EdgeX.Names.{edgex_object_name, get_edge_device_service_name}
use yurt_device_controller.Controllers.Session.{
  Session, any, is_clearing, is_edge_deletion, patch, write_status,
}
use yurt_device_controller.Controllers.DeviceServices.Lifecycle.{
  DeviceServiceReconciler, remove_service, reconcile_delete_device_service,
}
use yurt_device_controller.Controllers.DeviceServices.Reconcile.{
  update_service_conditions, after_service_delete, reconcile_service, reconcile_loaded,
}
use yurt_device_controller.Controllers.DeviceServices.Traces.{
  update_service_conditions-Keeps, after_service_delete-Keeps,
}
use yurt_device_controller.Controllers.Kube.{accepted}

module _ {W : Type 0} (r : DeviceServiceReconciler W) where
  update_service_conditions-ok :
      (s : Session W DeviceService) → (update_service_conditions r s).0 ≡ ok tt
  unfolding update_service_conditions write_status
  update_service_conditions-ok s = ground arith

  deleting_service :
      (s : Session W DeviceService)
      → any is_edge_deletion s.trace ≡ false
      → any is_edge_deletion (reconcile_delete_device_service r s).1.trace ≡ true
      → (is_zero s.object.metadata.deletion_timestamp ≡ false)
        × (accepted (r.client.patch_finalizers s.object [] s.world).0 ≡ true)
  unfolding reconcile_delete_device_service patch remove_service
  deleting_service s quiet h = ground arith

  deleting_reconcile_service :
      (s : Session W DeviceService)
      → any is_edge_deletion (reconcile_service r s).1.trace
        ≡ any is_edge_deletion (reconcile_delete_device_service r s).1.trace
  unfolding reconcile_service
  deleting_reconcile_service s = grind (
    arith,
    after_service_delete-Keeps r is_edge_deletion (λ _. refl) (λ _. refl) (λ _. refl) (λ _. refl),
  )

  -- Whatever the calls answer, the edge platform is asked to delete a device service only if the
  -- resource is being deleted, and only after the cluster has taken the write that clears its
  -- finalizers.
  pub service_deletion_needs_clearing :
      (w : W) (d : DeviceService)
      → any is_edge_deletion (reconcile_loaded r w d).1.trace ≡ true
      → (is_zero d.metadata.deletion_timestamp ≡ false)
        × (accepted (r.client.patch_finalizers d [] w).0 ≡ true)
  unfolding reconcile_loaded
  service_deletion_needs_clearing w d h =
      let s : Session W DeviceService = record { world = w; object = d; trace = [] } in
      ground (
        arith,
        deleting_service s refl,
        deleting_reconcile_service s,
        update_service_conditions-Keeps r is_edge_deletion (λ _. refl) (reconcile_service r s).1,
      )

  removed_service :
      (s : Session W DeviceService) (w' w'' : W) (d' : DeviceService) (e : Error)
      → is_zero s.object.metadata.deletion_timestamp ≡ false
      → r.client.patch_finalizers s.object [] s.world ≡ (value d', w')
      → r.device_service_cli.delete (get_edge_device_service_name s.object edgex_object_name) w'
        ≡ (fail e, w'')
      → is_not_found_err e ≡ false
      → is_not_found e ≡ false
      → ((reconcile_service r s).0 ≡ fail e)
        × (any is_clearing (reconcile_service r s).1.trace ≡ true)
  unfolding reconcile_service reconcile_delete_device_service patch remove_service
      after_service_delete
  removed_service s w' w'' d' e dying cleared refused there known = ground arith

  -- Where the edge platform fails to delete the service, with an error that neither the client nor
  -- the cluster calls "not found", the call ends with that error, and the finalizers are already
  -- cleared: nothing keeps the resource for another attempt.
  pub failed_service_deletion_is_cleared :
      (w w' w'' : W) (d d' : DeviceService) (e : Error)
      → d.spec.node_pool ≡ r.node_pool
      → is_zero d.metadata.deletion_timestamp ≡ false
      → r.client.patch_finalizers d [] w ≡ (value d', w')
      → r.device_service_cli.delete (get_edge_device_service_name d edgex_object_name) w'
        ≡ (fail e, w'')
      → is_not_found_err e ≡ false
      → is_not_found e ≡ false
      → ((reconcile_loaded r w d).0 ≡ fail e)
        × (any is_clearing (reconcile_loaded r w d).1.trace ≡ true)
  unfolding reconcile_loaded
  failed_service_deletion_is_cleared w w' w'' d d' e own dying cleared refused there known =
      let s : Session W DeviceService = record { world = w; object = d; trace = [] } in
      ground (
        arith,
        eq_iff d.spec.node_pool r.node_pool,
        removed_service s w' w'' d' e dying cleared refused there known,
        update_service_conditions-ok (reconcile_service r s).1,
        update_service_conditions-Keeps r is_clearing (λ _. refl) (reconcile_service r s).1,
      )
