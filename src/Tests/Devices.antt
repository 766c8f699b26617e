-- ===== src/Tests/Devices.antt =====
-- The reconciler of devices at concrete inputs.
use yurt_device_controller.Prelude.{true, refl, [], ◌∷◌, some, ◌≡◌, false, inl, inr}
use yurt_device_controller.Api.{Device}
use yurt_device_controller.Clients.Errors.{is_not_found_err}
use yurt_device_controller.Tests.Samples.{
  sample_device, new_device, dying_device, reconciler, begin, unreachable, sample_status, Platform,
}
use yurt_device_controller.Controllers.Session.{any, is_status_write, write_status, patch}
use yurt_device_controller.Controllers.Devices.Deletion.{
  cleared_after_edge_delete, is_gone, deletion,
}
use yurt_device_controller.Controllers.Devices.Creation.{
  creation_needs_absence, creation_records_id, creation_without_id, says_not_found, search_on_edge,
}
use yurt_device_controller.Controllers.Devices.Quiet.{property_set_needs_up}
use yurt_device_controller.Controllers.Devices.States.{next_update_undoes_states, update_request}
use yurt_device_controller.Controllers.Devices.Outcomes.{reconcile-EndsWithSummary, EndsWithSummary}
use yurt_device_controller.Controllers.Devices.Lifecycle.{
  remove_device, reconcile_delete_device, reconcile_create_device, adopt, add_device,
}
use yurt_device_controller.Controllers.Devices.Update.{
  desired_status, update_device, reconcile_update_device, settle_update, reconcile_values,
  finish_update,
}
use yurt_device_controller.Controllers.Devices.Properties.{
  reconcile_property, reconcile_properties, reconcile_device_properties,
}
use yurt_device_controller.Controllers.Devices.Reconcile.{
  reconcile_loaded, reconcile_device, update_conditions, after_delete,
}

abbrev present : Platform
present = ("thermostat", sample_device) ∷ []

cleared_after_edge_delete_example : is_gone (deletion reconciler dying_device present).0 ≡ true
unfolding reconcile_loaded reconcile_device reconcile_delete_device remove_device patch after_delete
    update_conditions write_status
cleared_after_edge_delete_example =
    (cleared_after_edge_delete reconciler present dying_device refl).1

creation_needs_absence_example : says_not_found (search_on_edge reconciler new_device []).0 ≡ true
unfolding reconcile_create_device adopt add_device write_status is_not_found_err
creation_needs_absence_example = creation_needs_absence reconciler (begin [] new_device) refl refl

creation_records_id_example :
    (d : Device) × ((reconcile_create_device reconciler
        (begin [] new_device)).1.object.status.edge_id
      ≡ "e9")
    × (d.status.edge_id ≡ "e9")
unfolding reconcile_create_device adopt add_device write_status is_not_found_err
creation_records_id_example =
    let (d, earlier, ends, synced, id) =
      creation_records_id reconciler (begin [] new_device) "e9" refl in
    (d, refl, id)

creation_without_id_example :
    any is_status_write
      (reconcile_create_device
        (record reconciler { device_cli = unreachable })
        (begin [] new_device)).1.trace
    ≡ false
unfolding is_not_found_err
creation_without_id_example =
    (creation_without_id (record reconciler { device_cli = unreachable }) (begin [] new_device)
      refl).0

property_set_needs_up_example : (desired_status sample_device).operating_state ≡ "UP"
unfolding reconcile_update_device settle_update reconcile_values finish_update
    reconcile_device_properties reconcile_properties reconcile_property desired_status update_device
    write_status
property_set_needs_up_example =
    (property_set_needs_up reconciler (begin present sample_device) refl refl).0

next_update_undoes_states_example :
    (update_request
      (record sample_device { status = desired_status sample_device })).operating_state
    ≡ some "UNKNOWN"
unfolding desired_status
next_update_undoes_states_example =
    (next_update_undoes_states sample_device (desired_status sample_device) refl refl (inr refl)
      (inl refl) refl refl).3

abbrev locked_device : Device
locked_device = record sample_device {
  status = record sample_status { admin_state = "UNLOCKED"; operating_state = "UP" };
}

reconcile-EndsWithSummary_example :
    EndsWithSummary reconciler (reconcile_loaded reconciler present sample_device).1.trace
reconcile-EndsWithSummary_example = reconcile-EndsWithSummary reconciler present sample_device refl
