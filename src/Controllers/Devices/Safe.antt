-- ===== src/Controllers/Devices/Safe.antt =====
-- The reconciler of devices does not panic over a client of the edge platform that does not.
use yurt_device_controller.Prelude.{List, String, ◌≡◌, refl, arith, true, false, [], ◌∷◌}
use yurt_device_controller.Prelude.Dict.{Dict}
use yurt_device_controller.Prelude.Io.{value}
use yurt_device_controller.Prelude.Safe.{panicked, Safe, Safe-bind}
use yurt_device_controller.Api.{Device, DeviceStatus, DesiredPropertyState}
use yurt_device_controller.EdgeX.Names.{edgex_object_name, get_edge_device_name}
use yurt_device_controller.Controllers.Session.{Session, patch, write_status}
use yurt_device_controller.Controllers.Devices.Reconciler.{DeviceReconciler}
use yurt_device_controller.Controllers.Devices.Properties.{
  Progress, reconcile_property, reconcile_device_properties, reconcile_properties,
}
use yurt_device_controller.Controllers.Devices.Properties.Answers.{answers}
use yurt_device_controller.Controllers.Devices.Update.{
  finish_update, reconcile_values, settle_update, reconcile_update_device, update_device,
  desired_status,
}
use yurt_device_controller.Controllers.Devices.Lifecycle.{
  remove_device, reconcile_delete_device, adopt, add_device, reconcile_create_device,
}
use yurt_device_controller.Controllers.Devices.Reconcile.{update_conditions, synchronize}

module _ {W : Type 0} (r : DeviceReconciler W) where
  -- No call of the client of the edge platform panics.
  pub record IsLive : Type 0 where
    pub gets : (n : String) → Safe (r.device_cli.get n)
    pub creates : (d : Device) → Safe (r.device_cli.create d)
    pub updates : (d : Device) → Safe (r.device_cli.update d)
    pub deletes : (n : String) → Safe (r.device_cli.delete n)
    pub sets : (n : String) (d : Device) → Safe (r.device_cli.update_property_state n d)

  -- A read of each of these properties gives a state, or an error other than "not found".
  abbrev pub CanRead : Device → Dict DesiredPropertyState → Type 0
  CanRead d [] = Unit
  CanRead d ((k, p) ∷ ps) =
      ((w : W) → answers (r.device_cli.get_property_state p.name d w).0 ≡ true) × CanRead d ps

  -- The devices that the cluster gives desire only such properties.
  pub record HoldsReadable : Type 0 where
    pub loads :
        (n : String) (w : W) (d : Device)
        → (r.client.get n w).0 ≡ value d
        → CanRead d d.spec.device_properties
    pub patches :
        (d d' : Device) (fs : List String) (w : W)
        → (r.client.patch_finalizers d fs w).0 ≡ value d'
        → CanRead d' d'.spec.device_properties

module _ {W : Type 0} (r : DeviceReconciler W) (live : IsLive r) (holds : HoldsReadable r) where
  reconcile_property-Safe :
      (d : Device) (p : DesiredPropertyState) (progress : Progress)
      → ((w : W) → answers (r.device_cli.get_property_state p.name d w).0 ≡ true)
      → Safe (reconcile_property r d p progress)
  unfolding reconcile_property
  reconcile_property-Safe d p progress can s =
      ground (
        arith,
        can s.world,
        live.sets p.name d (r.device_cli.get_property_state p.name d s.world).1,
      )

  reconcile_properties-Safe :
      (d : Device) (ps : Dict DesiredPropertyState) (progress : Progress)
      → CanRead r d ps
      → Safe (reconcile_properties r d ps progress)
  unfolding reconcile_properties
  reconcile_properties-Safe d [] progress can = λ s. refl
  reconcile_properties-Safe d ((k, p) ∷ ps) progress can =
      Safe-bind (reconcile_property r d p progress) (reconcile_properties r d ps)
        (reconcile_property-Safe d p progress can.0)
        (λ progress'. reconcile_properties-Safe d ps progress' can.1)

  finish_update-Safe : (p : Progress) → Safe (finish_update r p)
  unfolding finish_update write_status
  finish_update-Safe p s = ground arith

  remove_device-Safe : (name : String) → Safe (remove_device r name)
  unfolding remove_device patch
  remove_device-Safe name s = ground (arith, live.deletes name s.world)

  pub reconcile_delete_device-Safe : Safe (reconcile_delete_device r)
  unfolding reconcile_delete_device patch
  reconcile_delete_device-Safe s =
      ground (arith, remove_device-Safe (get_edge_device_name s.object edgex_object_name) s)

  adopt-Safe : (st : DeviceStatus) (id : String) → Safe (adopt r st id)
  unfolding adopt write_status
  adopt-Safe st id s = ground arith

  add_device-Safe : (d : Device) → Safe (add_device r d)
  unfolding add_device
  add_device-Safe d s = grind (arith, live.creates d s.world, adopt-Safe)

  reconcile_create_device-Safe : Safe (reconcile_create_device r)
  unfolding reconcile_create_device
  reconcile_create_device-Safe s =
      let name = get_edge_device_name s.object edgex_object_name in
      grind (arith, live.gets name s.world, adopt-Safe, add_device-Safe)

  reconcile_values-Safe :
      (d : Device) → CanRead r d d.spec.device_properties → Safe (reconcile_values r d)
  unfolding reconcile_values reconcile_device_properties
  reconcile_values-Safe d can s =
      ground
        (arith, reconcile_properties-Safe d d.spec.device_properties (desired_status d, []) can s)

  settle_update-Safe :
      (d : Device) → CanRead r d d.spec.device_properties → Safe (settle_update r d)
  unfolding settle_update
  settle_update-Safe d can =
      Safe-bind (reconcile_values r d) (finish_update r) (reconcile_values-Safe d can)
        finish_update-Safe

  -- What is asked of the object of a session.
  abbrev pub IsReadable : Session W Device → Type 0
  IsReadable s = CanRead r s.object s.object.spec.device_properties

  reconcile_update_device-Safe :
      (s : Session W Device) → IsReadable s → panicked (reconcile_update_device r s).0 ≡ false
  unfolding reconcile_update_device
  reconcile_update_device-Safe s can = grind (
    arith,
    live.updates (update_device s.object) s.world,
    λ (t : Session W Device). settle_update-Safe s.object can t,
  )

  pub update_conditions-Safe : Safe (update_conditions r)
  unfolding update_conditions write_status
  update_conditions-Safe s = ground arith

  pub synchronize-Safe :
      (s : Session W Device) → IsReadable s → panicked (synchronize r s.object s).0 ≡ false
  unfolding synchronize
  synchronize-Safe s can =
      ground (arith, reconcile_update_device-Safe s can, reconcile_create_device-Safe s)
