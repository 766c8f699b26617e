-- ===== src/Controllers/Devices/Traces.antt =====
-- Which calls the parts of the reconciler never make.
use yurt_device_controller.Prelude.{String, ◌≡◌, refl, arith, Bool, false, [], ◌∷◌}
use yurt_device_controller.Prelude.Dict.{Dict}
use yurt_device_controller.Api.{Device, DeviceStatus, DesiredPropertyState}
use yurt_device_controller.Controllers.Session.{
  Event, write_status, status_written, property_read, property_set, edge_updated, edge_fetched,
  edge_created,
}
use yurt_device_controller.Controllers.Session.Keeps.{Keeps, Keeps-bind}
use yurt_device_controller.Controllers.Devices.Reconciler.{DeviceReconciler}
use yurt_device_controller.Controllers.Devices.Properties.{
  Progress, reconcile_property, reconcile_properties, reconcile_device_properties,
}
use yurt_device_controller.Controllers.Devices.Update.{
  finish_update, reconcile_values, reconcile_update_device, update_device, desired_status,
  settle_update,
}
use yurt_device_controller.Controllers.Devices.Lifecycle.{
  reconcile_create_device, adopt, add_device,
}
use yurt_device_controller.Prelude.Io.{Result, value, error}
use yurt_device_controller.Controllers.Devices.Reconcile.{
  synchronize, after_delete, update_conditions,
}
use yurt_device_controller.EdgeX.Names.{edgex_object_name, get_edge_device_name}

module _ {W : Type 0} (r : DeviceReconciler W) (test : Event Device → Bool)
    (written : (x : Device) → test (status_written x) ≡ false) where
  pub write_status-Keeps : Keeps test (write_status r.client)
  unfolding write_status
  write_status-Keeps s = ground (arith, written s.object)

  pub finish_update-Keeps : (progress : Progress) → Keeps test (finish_update r progress)
  unfolding finish_update write_status
  finish_update-Keeps (st, names) s = ground (arith, written (record s.object { status = st }))

  pub adopt-Keeps : (st : DeviceStatus) (id : String) → Keeps test (adopt r st id)
  unfolding adopt
  adopt-Keeps st id s = grind (arith, write_status-Keeps)

  pub update_conditions-Keeps : Keeps test (update_conditions r)
  unfolding update_conditions
  update_conditions-Keeps s = grind (arith, write_status-Keeps)

  module _ (created : (x : Device) → test (edge_created x) ≡ false) where
    add_device-Keeps : (d : Device) → Keeps test (add_device r d)
    unfolding add_device
    add_device-Keeps d s = grind (arith, created d, adopt-Keeps)

    pub reconcile_create_device-Keeps :
        ((n : String) → test (edge_fetched n) ≡ false) → Keeps test (reconcile_create_device r)
    unfolding reconcile_create_device
    reconcile_create_device-Keeps fetched s = grind (
      arith,
      fetched (get_edge_device_name s.object edgex_object_name),
      adopt-Keeps,
      add_device-Keeps,
    )

  module _ (reads : (n : String) → test (property_read n) ≡ false)
      (sets : (n : String) → test (property_set n) ≡ false) where
    reconcile_property-Keeps :
        (d : Device) (p : DesiredPropertyState) (progress : Progress)
        → Keeps test (reconcile_property r d p progress)
    unfolding reconcile_property
    reconcile_property-Keeps d p progress s = ground (arith, reads p.name, sets p.name)

    reconcile_properties-Keeps :
        (d : Device) (ps : Dict DesiredPropertyState) (progress : Progress)
        → Keeps test (reconcile_properties r d ps progress)
    unfolding reconcile_properties
    reconcile_properties-Keeps d [] progress = λ s. refl
    reconcile_properties-Keeps d ((k, p) ∷ ps) progress =
        Keeps-bind test (reconcile_property r d p progress) (reconcile_properties r d ps)
          (reconcile_property-Keeps d p progress) (reconcile_properties-Keeps d ps)

    reconcile_values-Keeps : (d : Device) → Keeps test (reconcile_values r d)
    unfolding reconcile_values reconcile_device_properties
    reconcile_values-Keeps d s =
        ground
          (arith, reconcile_properties-Keeps d d.spec.device_properties (desired_status d, []) s)

    settle_update-Keeps : (d : Device) → Keeps test (settle_update r d)
    unfolding settle_update
    settle_update-Keeps d =
        Keeps-bind test (reconcile_values r d) (finish_update r) (reconcile_values-Keeps d)
          finish_update-Keeps

    pub reconcile_update_device-Keeps :
        ((x : Device) → test (edge_updated x) ≡ false) → Keeps test (reconcile_update_device r)
    unfolding reconcile_update_device
    reconcile_update_device-Keeps updated s =
        grind (arith, updated (update_device s.object), settle_update-Keeps)

    module _ (updated : (x : Device) → test (edge_updated x) ≡ false)
        (created : (x : Device) → test (edge_created x) ≡ false)
        (fetched : (n : String) → test (edge_fetched n) ≡ false) where
      pub synchronize-Keeps : (d : Device) → Keeps test (synchronize r d)
      unfolding synchronize
      synchronize-Keeps d s = ground (
        arith,
        reconcile_update_device-Keeps updated s,
        reconcile_create_device-Keeps created fetched s,
      )

      pub after_delete-Keeps : (q : Result (Unit {0})) → Keeps test (after_delete r q)
      unfolding after_delete
      after_delete-Keeps (error e) s = ground arith
      after_delete-Keeps (value _) s = ground (arith, synchronize-Keeps s.object s)
