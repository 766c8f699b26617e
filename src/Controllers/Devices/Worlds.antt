-- ===== src/Controllers/Devices/Worlds.antt =====
-- Which parts of the reconciler leave an observation of the world as it is, from the calls that do.
use yurt_device_controller.Prelude.{String, ◌≡◌, refl, arith, Bool, [], ◌∷◌}
use yurt_device_controller.Prelude.Dict.{Dict}
use yurt_device_controller.Api.{Device, DeviceStatus, DesiredPropertyState}
use yurt_device_controller.EdgeX.Names.{edgex_object_name, get_edge_device_name}
use yurt_device_controller.Controllers.Session.{write_status}
use yurt_device_controller.Controllers.Session.Stays.{Stays, Stays-bind}
use yurt_device_controller.Controllers.Devices.Reconciler.{DeviceReconciler}
use yurt_device_controller.Controllers.Devices.Properties.{
  Progress, reconcile_property, reconcile_properties, reconcile_device_properties,
}
use yurt_device_controller.Controllers.Devices.Update.{
  finish_update, reconcile_values, reconcile_update_device, settle_update, update_device,
  desired_status,
}
use yurt_device_controller.Controllers.Devices.Lifecycle.{
  reconcile_create_device, adopt, add_device,
}
use yurt_device_controller.Controllers.Devices.Reconcile.{synchronize, update_conditions}

-- The calls that only read, or that change what is already there, leave the observation alone.
pub record Unobserved {W : Type 0} (r : DeviceReconciler W) (observe : W → Bool) : Type 0 where
  pub writes : (d : Device) (w : W) → observe (r.client.update_status d w).1 ≡ observe w
  pub fetches : (n : String) (w : W) → observe (r.device_cli.get n w).1 ≡ observe w
  pub updates : (d : Device) (w : W) → observe (r.device_cli.update d w).1 ≡ observe w
  pub reads :
      (n : String) (d : Device) (w : W)
      → observe (r.device_cli.get_property_state n d w).1 ≡ observe w
  pub sets :
      (n : String) (d : Device) (w : W)
      → observe (r.device_cli.update_property_state n d w).1 ≡ observe w

module _ {W : Type 0} (r : DeviceReconciler W) (observe : W → Bool) (h : Unobserved r observe) where
  write_status-Stays : Stays observe (write_status r.client)
  unfolding write_status
  write_status-Stays s = ground (arith, h.writes s.object s.world)

  finish_update-Stays : (progress : Progress) → Stays observe (finish_update r progress)
  unfolding finish_update write_status
  finish_update-Stays (st, names) s =
      ground (arith, h.writes (record s.object { status = st }) s.world)

  adopt-Stays : (st : DeviceStatus) (id : String) → Stays observe (adopt r st id)
  unfolding adopt
  adopt-Stays st id s = grind (arith, write_status-Stays)

  pub update_conditions-Stays : Stays observe (update_conditions r)
  unfolding update_conditions
  update_conditions-Stays s = grind (arith, write_status-Stays)

  reconcile_property-Stays :
      (d : Device) (p : DesiredPropertyState) (progress : Progress)
      → Stays observe (reconcile_property r d p progress)
  unfolding reconcile_property
  reconcile_property-Stays d p progress s =
      let w = (r.device_cli.get_property_state p.name d s.world).1 in
      ground (arith, h.reads p.name d s.world, h.sets p.name d w)

  reconcile_properties-Stays :
      (d : Device) (ps : Dict DesiredPropertyState) (progress : Progress)
      → Stays observe (reconcile_properties r d ps progress)
  unfolding reconcile_properties
  reconcile_properties-Stays d [] progress = λ s. refl
  reconcile_properties-Stays d ((k, p) ∷ ps) progress =
      Stays-bind observe (reconcile_property r d p progress) (reconcile_properties r d ps)
        (reconcile_property-Stays d p progress) (reconcile_properties-Stays d ps)

  reconcile_values-Stays : (d : Device) → Stays observe (reconcile_values r d)
  unfolding reconcile_values reconcile_device_properties
  reconcile_values-Stays d s =
      ground (arith, reconcile_properties-Stays d d.spec.device_properties (desired_status d, []) s)

  settle_update-Stays : (d : Device) → Stays observe (settle_update r d)
  unfolding settle_update
  settle_update-Stays d =
      Stays-bind observe (reconcile_values r d) (finish_update r) (reconcile_values-Stays d)
        finish_update-Stays

  reconcile_update_device-Stays : Stays observe (reconcile_update_device r)
  unfolding reconcile_update_device
  reconcile_update_device-Stays s =
      grind (arith, h.updates (update_device s.object) s.world, settle_update-Stays)

  -- Where a creation leaves it alone too.
  module _ (creates : (d : Device) (w : W) → observe (r.device_cli.create d w).1 ≡ observe w) where
    add_device-Stays : (d : Device) → Stays observe (add_device r d)
    unfolding add_device
    add_device-Stays d s = grind (arith, creates d s.world, adopt-Stays)

    reconcile_create_device-Stays : Stays observe (reconcile_create_device r)
    unfolding reconcile_create_device
    reconcile_create_device-Stays s = grind (
      arith,
      h.fetches (get_edge_device_name s.object edgex_object_name) s.world,
      adopt-Stays,
      add_device-Stays,
    )

    pub synchronize-Stays : (d : Device) → Stays observe (synchronize r d)
    unfolding synchronize
    synchronize-Stays d s =
        ground (arith, reconcile_update_device-Stays s, reconcile_create_device-Stays s)
