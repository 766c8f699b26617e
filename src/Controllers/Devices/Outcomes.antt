-- ===== src/Controllers/Devices/Outcomes.antt =====
-- How a call of the reconciler ends.
use yurt_device_controller.Prelude.{
  Bool-cases, inl, inr, eq_iff, ◌≡◌, refl, arith, false, List, [], ◌∷◌,
}
use yurt_device_controller.Prelude.Io.{Error, fail, is_conflict}
use yurt_device_controller.Controllers.Kube.{info}
use yurt_device_controller.Api.{
  set_conditions, Device, Conditions, device_synced_condition, device_managing_condition,
}
use yurt_device_controller.Controllers.Session.{Session, Event, status_written, write_status}
use yurt_device_controller.Controllers.Devices.Reconciler.{DeviceReconciler}
use yurt_device_controller.Controllers.Devices.Reconcile.{
  synchronize, reconcile_device, update_conditions, reconcile_loaded,
}

module _ {W : Type 0} (r : DeviceReconciler W) where
  -- A conflict between writers of a device that is created or updated is retried: it never leaves
  -- the reconciler as an error.
  pub conflict_is_retried :
      (d : Device) (s : Session W Device) {e : Error}
      → (synchronize r d s).0 ≡ fail e
      → is_conflict e ≡ false
  unfolding synchronize
  conflict_is_retried d s h = ground arith

  -- The latest call is a write of the status, whose conditions are a summary of the two that
  -- the controller keeps.
  abbrev pub EndsWithSummary : List (Event Device) → Type 0
  EndsWithSummary trace =
      (d : Device) × (earlier : List (Event Device)) × (cs : Conditions) × (trace
        ≡ status_written d ∷ earlier)
      × (d.status.conditions
          ≡ r.conditions.set_summary (device_synced_condition ∷ device_managing_condition ∷ []) cs)

  update_conditions-EndsWithSummary :
      (s : Session W Device) → EndsWithSummary (update_conditions r s).1.trace
  unfolding update_conditions write_status
  update_conditions-EndsWithSummary s = elim (Bool-cases s.object.spec.managed) [
    | inl managed ↦ summed s.object.status.conditions (ground arith)
    | inr unmanaged ↦
        summed
          (r.conditions.mark_false device_managing_condition
            "this device is not managed by openyurt" info "" s.object.status.conditions)
          (ground arith)
  ]
    where
      summary : Conditions → Device
      summary cs =
          set_conditions s.object
            (r.conditions.set_summary (device_synced_condition ∷ device_managing_condition ∷ []) cs)

      summed :
          (cs : Conditions)
          → (update_conditions r s).1.trace ≡ status_written (summary cs) ∷ s.trace
          → EndsWithSummary (update_conditions r s).1.trace
      summed cs h = (summary cs, s.trace, cs, h, refl)

  -- However the handling of a device of the controller's own node pool ends, by a result, an
  -- error or a panic, the last call made is the write of its status with summed up conditions.
  pub reconcile-EndsWithSummary :
      (w : W) (d : Device)
      → d.spec.node_pool ≡ r.node_pool
      → EndsWithSummary (reconcile_loaded r w d).1.trace
  unfolding reconcile_loaded
  reconcile-EndsWithSummary w d own =
      let s : Session W Device = record { world = w; object = d; trace = [] } in
      let (x, earlier, cs, ends, summed) =
        update_conditions-EndsWithSummary (reconcile_device r s).1 in
      (x, earlier, cs, ground (arith, eq_iff d.spec.node_pool r.node_pool, ends), summed)
