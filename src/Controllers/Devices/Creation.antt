-- ===== src/Controllers/Devices/Creation.antt =====
-- What the first synchronization of a device leaves behind.
use yurt_device_controller.Prelude.{
  Bool-cases, inl, inr, List, ◌∷◌, refl, String, ◌≡◌, arith, Bool, true, false, Option, none, some,
  if◌then◌else◌,
}
use yurt_device_controller.Prelude.Io.{Outcome, ok, fail}
use yurt_device_controller.Api.{Device, set_conditions, device_synced_condition}
use yurt_device_controller.Clients.Errors.{is_not_found_err}
use yurt_device_controller.EdgeX.Names.{edgex_object_name, get_edge_device_name}
use yurt_device_controller.Controllers.Devices.Lifecycle.{
  add_device, reconcile_create_device, adopt,
}
use yurt_device_controller.Controllers.Session.{
  Event, status_written, edge_created, edge_fetched, is_status_write, Session, write_status, any,
  is_creation,
}
use yurt_device_controller.Controllers.Devices.Reconciler.{DeviceReconciler}

-- The device of an answer, and whether an answer is an error that says "not found".
abbrev edge_id_in : Outcome Device → Option String
edge_id_in (ok d) = some d.status.edge_id
edge_id_in _ = none

abbrev pub says_not_found : Outcome Device → Bool
says_not_found (fail e) = is_not_found_err e
says_not_found _ = false

module _ {W : Type 0} (r : DeviceReconciler W) where
  -- The search for the device, and the creation that follows it.
  abbrev pub search_on_edge : Device → W → Outcome Device × W
  search_on_edge d w = r.device_cli.get (get_edge_device_name d edgex_object_name) w

  -- The id that the device has on the edge platform when the call is over, as far as the answers
  -- tell: that of the device found, or of the one created where there was none.
  abbrev pub edge_id_after : Device → W → Option String
  edge_id_after d w =
      let (found, w') = search_on_edge d w in
      if says_not_found found then edge_id_in (r.device_cli.create d w').0 else edge_id_in found

  -- A device is created on the edge platform only after the platform has said that it has none.
  pub creation_needs_absence :
      (s : Session W Device)
      → any is_creation s.trace ≡ false
      → any is_creation (reconcile_create_device r s).1.trace ≡ true
      → says_not_found (search_on_edge s.object s.world).0 ≡ true
  unfolding reconcile_create_device adopt write_status
  creation_needs_absence s quiet h = ground arith

  -- What `adopt` writes.
  abbrev adopted : Device → String → Device
  adopted d id =
      set_conditions (record d { status = record (d.status) { edge_id = id; synced = true } })
        (r.conditions.mark_true device_synced_condition d.status.conditions)

  -- Where the edge platform tells the id of the device, found or newly created, the call ends with
  -- a write of the status that says synced and has this id.
  pub creation_records_id :
      (s : Session W Device) (id : String)
      → edge_id_after s.object s.world ≡ some id
      → (d : Device) × (earlier : List (Event Device)) × ((reconcile_create_device r s).1.trace
          ≡ status_written d ∷ earlier)
        × (d.status.synced ≡ true)
        × (d.status.edge_id ≡ id)
  unfolding reconcile_create_device adopt add_device write_status
  creation_records_id s id told =
      let name = get_edge_device_name s.object edgex_object_name in
      elim (Bool-cases (says_not_found (search_on_edge s.object s.world).0)) [
        | inl absent ↦ (
          adopted s.object id,
          edge_created s.object ∷ edge_fetched name ∷ s.trace,
          ground arith,
          refl,
          refl,
        )
        | inr present ↦ (adopted s.object id, edge_fetched name ∷ s.trace, ground arith, refl, refl)
      ]

  -- Where it does not, because it cannot be reached or refuses the device, no status is written,
  -- and the device stays as unsynced as it was.
  pub creation_without_id :
      (s : Session W Device)
      → edge_id_after s.object s.world ≡ none
      → (any is_status_write (reconcile_create_device r s).1.trace ≡ any is_status_write s.trace)
        × ((reconcile_create_device r s).1.object.status.synced ≡ s.object.status.synced)
  unfolding reconcile_create_device adopt add_device write_status
  creation_without_id s untold = ground arith
