-- ===== src/Controllers/DeviceServices/Reconcile.antt =====
-- `reconcileUpdateDeviceService` and `Reconcile` (pkg/controllers/deviceservice_controller.go).
use yurt_device_controller.Prelude.{String, Bool, not, ◌&&◌, [], ◌∷◌, if◌then◌else◌, ◌==◌}
use yurt_device_controller.Prelude.Io.{
  Io, Result, value, error, pure, raise, attempt, deferred, call, ok, Outcome, is_conflict, ◌>>=◌,
  ◌>>◌,
}
use yurt_device_controller.Api.{
  DeviceService, DeviceServiceStatus, device_service_synced_condition,
  device_service_managing_condition, set_service_conditions, is_zero,
}
use yurt_device_controller.Controllers.Kube.{
  info, warning, ReconcileResult, done, requeue_now, ignore_not_found,
}
use yurt_device_controller.Controllers.Session.{
  Session, request, the_object, modify, write_status, edge_updated,
}
use yurt_device_controller.Controllers.DeviceServices.Lifecycle.{
  DeviceServiceReconciler, mark_true, mark_false, reconcile_delete_device_service,
  reconcile_create_device_service,
}

-- The desired state of administration is set and differs from the reported one.
abbrev pub wants_state : DeviceService → Bool
wants_state d = not (d.spec.admin_state == "") && not (d.spec.admin_state == d.status.admin_state)

-- `newDeviceServiceStatus` and `updateDeviceService` after step 1
unfoldable pub desired_service_status : DeviceService → DeviceServiceStatus
desired_service_status d = record (d.status) {
  admin_state = if wants_state d then d.spec.admin_state else d.status.admin_state;
}

unfoldable pub update_device_service : DeviceService → DeviceService
update_device_service d = record d {
  spec = record (d.spec) { admin_state = if wants_state d then d.spec.admin_state else "" };
}

module _ {W : Type 0} (r : DeviceServiceReconciler W) where
  -- Step 2
  unfoldable pub finish_service_update :
      DeviceServiceStatus → Io (Session W DeviceService) (Unit {0})
  finish_service_update st = do
    modify (λ d. record d { status = st })
    written ← attempt (write_status r.client)
    elim written [
      | error e ↦ do
        mark_false r device_service_managing_condition
            "failed to update status of deviceService on openyurt" warning (e.message)
        raise e
      | value _ ↦ mark_true r device_service_managing_condition
    ]

  unfoldable pub reconcile_update_device_service : Io (Session W DeviceService) (Unit {0})
  reconcile_update_device_service = do
    d ← the_object
    updated ← attempt (
        request (edge_updated (update_device_service d))
          (r.device_service_cli.update (update_device_service d)))
    elim updated [
      | error e ↦ do
        mark_false r device_service_managing_condition
            "failed to update AdminState of deviceService on edge platform" warning (e.message)
        raise e
      | value _ ↦ finish_service_update (desired_service_status d)
    ]

  -- The deferred function: conditions and status, where the errors of the write are only logged.
  unfoldable pub update_service_conditions : Io (Session W DeviceService) (Unit {0})
  update_service_conditions = do
    d ← the_object
    if d.spec.managed
        then pure tt
        else mark_false r device_service_managing_condition
            "this deviceService is not managed by openyurt" info ""
    modify (λ d. set_service_conditions d (
        r.conditions.set_summary
          (device_service_synced_condition ∷ device_service_managing_condition ∷ [])
          d.status.conditions))
    attempt (write_status r.client) >>= λ _. pure tt

  -- A conflict is answered by another call.
  retried : Result (Unit {0}) → Io (Session W DeviceService) ReconcileResult
  retried (value _) = pure done
  retried (error e) = if is_conflict e then pure requeue_now else raise e

  -- Steps 2 and 3, on a service that is not being deleted.
  unfoldable pub synchronize_service : DeviceService → Io (Session W DeviceService) ReconcileResult
  unfolding retried
  synchronize_service d =
      if d.status.synced
      then (if d.spec.managed
          then attempt (reconcile_update_device_service) >>= retried
          else pure done)
      else attempt (reconcile_create_device_service r) >>= retried

  unfoldable pub after_service_delete :
      Result (Unit {0}) → Io (Session W DeviceService) ReconcileResult
  after_service_delete (error e) = ignore_not_found e
  after_service_delete (value _) = do
    d ← the_object
    if is_zero d.metadata.deletion_timestamp then synchronize_service d else pure done

  -- What follows the `defer` statement.
  unfoldable pub reconcile_service : Io (Session W DeviceService) ReconcileResult
  reconcile_service = attempt (reconcile_delete_device_service r) >>= after_service_delete

  -- `Reconcile`, once the object is loaded.
  unfoldable pub reconcile_loaded :
      W → DeviceService → Outcome ReconcileResult × Session W DeviceService
  reconcile_loaded w d =
      let s : Session W DeviceService = record { world = w; object = d; trace = [] } in
      if d.spec.node_pool == r.node_pool
      then deferred (update_service_conditions) (reconcile_service) s
      else (ok done, s)

  unfoldable pub reconcile : String → Io W ReconcileResult
  unfolding reconcile_loaded
  reconcile name = do
    loaded ← attempt (call (r.client.get name))
    elim loaded [
      | error e ↦ ignore_not_found e
      | value d ↦ λ w. let (q, s) = reconcile_loaded w d in (q, s.world)
    ]
