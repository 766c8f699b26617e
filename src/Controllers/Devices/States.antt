-- ===== src/Controllers/Devices/States.antt =====
-- What the update of a device tells the edge platform about its states and its name:
-- `reconcileUpdateDevice` with the request that `toEdgeXUpdateDevice` makes of its device.
use yurt_device_controller.Prelude.{
  false, refl, String, ◌≡◌, ◌≢◌, sym, ap, ◌∙◌, arith, eq_iff, true, some,
}
use yurt_device_controller.Prelude.Dict.{lookup}
use yurt_device_controller.Api.{Device, DeviceStatus}
use yurt_device_controller.EdgeX.Names.{edgex_object_name, get_edgex_name}
use yurt_device_controller.EdgeX.Dto.{EdgeXUpdateDevice}
use yurt_device_controller.EdgeX.Devices.{
  to_edgex_device, to_edgex_update_device, to_edgex_admin_state, to_edgex_operating_state,
}
use yurt_device_controller.EdgeX.Devices.Laws.{
  IsAdminState, IsOperatingState, admin_state_kept, operating_state_kept,
}
use yurt_device_controller.Controllers.Devices.Update.{update_device, wants_change, desired_status}

-- The request of the update call.
abbrev pub update_request : Device → EdgeXUpdateDevice
update_request d = to_edgex_update_device (update_device d)

-- States that the specification wants changed, and that the edge platform knows, are sent as they
-- are desired, and become the states of the new status.
pub changed_states_are_sent :
    (d : Device)
    → wants_change d.spec.admin_state d.status.admin_state ≡ true
    → wants_change d.spec.operating_state d.status.operating_state ≡ true
    → IsAdminState d.spec.admin_state
    → IsOperatingState d.spec.operating_state
    → ((update_request d).admin_state ≡ some (desired_status d).admin_state)
      × ((update_request d).operating_state ≡ some (desired_status d).operating_state)
      × ((desired_status d).admin_state ≡ d.spec.admin_state)
      × ((desired_status d).operating_state ≡ d.spec.operating_state)
unfolding update_device desired_status to_edgex_update_device
changed_states_are_sent d admin operating known_admin known_operating = ground (
  arith,
  admin_state_kept d.spec.admin_state known_admin,
  operating_state_kept d.spec.operating_state known_operating,
)

no_change : (s t : String) → s ≡ t → wants_change s t ≡ false
no_change s t h = ground (arith, eq_iff s t)

-- Whatever state both sides agree on, LOCKED and UP or DOWN included, the request tells the edge
-- platform that the device is unlocked and that its operating state is unknown.
pub agreed_states_are_overwritten :
    (d : Device)
    → d.spec.admin_state ≡ d.status.admin_state
    → d.spec.operating_state ≡ d.status.operating_state
    → ((update_request d).admin_state ≡ some "UNLOCKED")
      × ((update_request d).operating_state ≡ some "UNKNOWN")
unfolding update_device to_edgex_update_device to_edgex_admin_state to_edgex_operating_state
agreed_states_are_overwritten d admin operating = (
  rw (no_change d.spec.admin_state d.status.admin_state admin) refl,
  rw (no_change d.spec.operating_state d.status.operating_state operating) refl,
)

-- States that the specification wants changed, and that the edge platform knows, are sent as they are
-- desired. Once they stand in the status, as after that call, the request of the next call for the same
-- device tells the edge platform that it is unlocked and that its operating state is unknown.
pub next_update_undoes_states :
    (d : Device) (st : DeviceStatus)
    → wants_change d.spec.admin_state d.status.admin_state ≡ true
    → wants_change d.spec.operating_state d.status.operating_state ≡ true
    → IsAdminState d.spec.admin_state
    → IsOperatingState d.spec.operating_state
    → st.admin_state ≡ (desired_status d).admin_state
    → st.operating_state ≡ (desired_status d).operating_state
    → let next = record d { status = st } in
      ((update_request d).admin_state ≡ some d.spec.admin_state)
      × ((update_request d).operating_state ≡ some d.spec.operating_state)
      × ((update_request next).admin_state ≡ some "UNLOCKED")
      × ((update_request next).operating_state ≡ some "UNKNOWN")
next_update_undoes_states d st admin operating known known' stored stored' =
    let (sent, sent', wanted, wanted') = changed_states_are_sent d admin operating known known' in
    let (lost, lost') =
      agreed_states_are_overwritten (record d { status = st }) (sym (stored ∙ wanted))
        (sym (stored' ∙ wanted')) in
    (sent ∙ ap some wanted, sent' ∙ ap some wanted', lost, lost')

-- A device whose label gives it another name on the edge platform is created there under that
-- name, and updated under its name in the cluster.
pub update_name_differs :
    (d : Device) (name : String)
    → lookup edgex_object_name d.metadata.labels ≡ some name
    → name ≢ d.metadata.name
    → ((to_edgex_device d).name ≡ name) × ((update_request d).name ≢ some name)
unfolding to_edgex_device update_device to_edgex_update_device get_edgex_name
update_name_differs d name labelled differs = ground arith
