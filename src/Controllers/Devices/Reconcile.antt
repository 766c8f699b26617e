-- ===== src/Controllers/Devices/Reconcile.antt =====
-- `Reconcile` (pkg/controllers/device_controller.go).
use yurt_device_controller.Prelude.{String, [], ◌∷◌, if◌then◌else◌, ◌==◌}
use yurt_device_controller.Prelude.Io.{
  Io, Result, value, error, pure, raise, attempt, deferred, call, ok, Outcome, is_conflict, ◌>>=◌,
  ◌>>◌,
}
use yurt_device_controller.Api.{
  Device, device_synced_condition, device_managing_condition, set_conditions, is_zero,
}
use yurt_device_controller.Controllers.Kube.{
  info, ReconcileResult, done, requeue_now, ignore_not_found,
}
use yurt_device_controller.Controllers.Session.{Session, the_object, modify, write_status}
use yurt_device_controller.Controllers.Devices.Reconciler.{DeviceReconciler, mark_false}
use yurt_device_controller.Controllers.Devices.Update.{reconcile_update_device}
use yurt_device_controller.Controllers.Devices.Lifecycle.{
  reconcile_delete_device, reconcile_create_device,
}

module _ {W : Type 0} (r : DeviceReconciler W) where
  -- The deferred function: conditions and status, where the errors of the write are only logged.
  unfoldable pub update_conditions : Io (Session W Device) (Unit {0})
  update_conditions = do
    d ← the_object
    if d.spec.managed
        then pure tt
        else mark_false r device_managing_condition "this device is not managed by openyurt" info ""
    modify (λ d. set_conditions d (
        r.conditions.set_summary (device_synced_condition ∷ device_managing_condition ∷ [])
          d.status.conditions))
    attempt (write_status r.client) >>= λ _. pure tt

  after_create : Result (Unit {0}) → Io (Session W Device) ReconcileResult
  after_create (value _) = pure done
  after_create (error e) = if is_conflict e then pure requeue_now else raise e

  after_update : Result (Unit {0}) → Io (Session W Device) ReconcileResult
  after_update (value _) = pure done
  after_update (error e) =
      if is_conflict e then pure (record done { requeue_after = 2 }) else raise e

  update_managed : Device → Io (Session W Device) ReconcileResult
  unfolding after_update
  update_managed d =
      if d.spec.managed then attempt (reconcile_update_device r) >>= after_update else pure done

  -- Steps 2 and 3, on a device that is not being deleted.
  unfoldable pub synchronize : Device → Io (Session W Device) ReconcileResult
  unfolding after_create update_managed
  synchronize d =
      if d.status.synced
      then update_managed d
      else attempt (reconcile_create_device r) >>= after_create

  unfoldable pub after_delete : Result (Unit {0}) → Io (Session W Device) ReconcileResult
  after_delete (error e) = ignore_not_found e
  after_delete (value _) = do
    d ← the_object
    if is_zero d.metadata.deletion_timestamp then synchronize d else pure done

  -- What follows the `defer` statement.
  unfoldable pub reconcile_device : Io (Session W Device) ReconcileResult
  reconcile_device = attempt (reconcile_delete_device r) >>= after_delete

  -- `Reconcile`, from a request for the object of a name: no session begins where the device is
  -- gone or belongs to another node pool.
  unfoldable pub reconcile_loaded : W → Device → Outcome ReconcileResult × Session W Device
  reconcile_loaded w d =
      let s : Session W Device = record { world = w; object = d; trace = [] } in
      if d.spec.node_pool == r.node_pool
      then deferred (update_conditions) (reconcile_device) s
      else (ok done, s)

  unfoldable pub reconcile : String → Io W ReconcileResult
  unfolding reconcile_loaded
  reconcile name = do
    loaded ← attempt (call (r.client.get name))
    elim loaded [
      | error e ↦ ignore_not_found e
      | value d ↦ λ w. let (q, s) = reconcile_loaded w d in (q, s.world)
    ]
