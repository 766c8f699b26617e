-- ===== src/Controllers/DeviceServices/Creation.antt =====
-- What the first synchronization of a device service leaves behind.
use yurt_device_controller.Prelude.{
  Bool-cases, inl, inr, List, ◌∷◌, refl, String, ◌≡◌, arith, Bool, true, false, Option, none, some,
  if◌then◌else◌,
}
use yurt_device_controller.Prelude.Io.{Outcome, ok, fail}
use yurt_device_controller.Api.{
  DeviceService, set_service_conditions, device_service_synced_condition,
}
use yurt_device_controller.Clients.Errors.{is_not_found_err}
use yurt_device_controller.EdgeX.Names.{edgex_object_name, get_edge_device_service_name}
use yurt_device_controller.Controllers.Session.{
  Event, Session, any, is_creation, status_written, edge_created, edge_fetched, write_status,
}
use yurt_device_controller.Controllers.DeviceServices.Lifecycle.{
  DeviceServiceReconciler, add_service, adopt_service, reconcile_create_device_service,
  with_edge_id,
}

abbrev service_id_in : Outcome DeviceService → Option String
service_id_in (ok d) = some d.status.edge_id
service_id_in _ = none

abbrev pub service_not_found : Outcome DeviceService → Bool
service_not_found (fail e) = is_not_found_err e
service_not_found _ = false

module _ {W : Type 0} (r : DeviceServiceReconciler W) where
  abbrev pub search_service : DeviceService → W → Outcome DeviceService × W
  search_service d w = r.device_service_cli.get (get_edge_device_service_name d edgex_object_name) w

  -- The id that the service has on the edge platform when the call is over, as far as the answers
  -- tell: that of the service found, or of the one created where there was none.
  abbrev pub service_id_after : DeviceService → W → Option String
  service_id_after d w =
      let (found, w') = search_service d w in
      if service_not_found found
      then service_id_in (r.device_service_cli.create d w').0
      else service_id_in found

  -- A device service is created on the edge platform only after the platform has said that it has
  -- none.
  pub service_creation_needs_absence :
      (s : Session W DeviceService)
      → any is_creation s.trace ≡ false
      → any is_creation (reconcile_create_device_service r s).1.trace ≡ true
      → service_not_found (search_service s.object s.world).0 ≡ true
  unfolding reconcile_create_device_service adopt_service add_service write_status
  service_creation_needs_absence s quiet h = ground arith

  abbrev marked : DeviceService → String → DeviceService
  marked d id =
      set_service_conditions (with_edge_id r id d)
        (r.conditions.mark_true device_service_synced_condition d.status.conditions)

  -- Where the edge platform tells the id of the service, found or newly created, the call ends with
  -- a write of the status that says synced and has this id.
  pub service_creation_records_id :
      (s : Session W DeviceService) (id : String)
      → service_id_after s.object s.world ≡ some id
      → (d : DeviceService) × (earlier : List (Event DeviceService))
        × ((reconcile_create_device_service r s).1.trace ≡ status_written d ∷ earlier)
        × (d.status.synced ≡ true)
        × (d.status.edge_id ≡ id)
  unfolding reconcile_create_device_service adopt_service add_service write_status
  service_creation_records_id s id told =
      let name = get_edge_device_service_name s.object edgex_object_name in
      elim (Bool-cases (service_not_found (search_service s.object s.world).0)) [
        | inl absent ↦ (
          marked s.object id,
          edge_created s.object ∷ edge_fetched name ∷ s.trace,
          ground arith,
          refl,
          refl,
        )
        | inr present ↦
            (with_edge_id r id s.object, edge_fetched name ∷ s.trace, ground arith, refl, refl)
      ]
