-- ===== src/Tests/Profiles.antt =====
-- The reconciler of device profiles at concrete inputs.
use yurt_device_controller.Prelude.{true, false, refl, [], some, none, ◌≡◌}
use yurt_device_controller.Prelude.Io.{new_error, value, ok, fail, Error}
use yurt_device_controller.Api.{DeviceProfile}
use yurt_device_controller.Clients.Errors.{is_not_found_err}
use yurt_device_controller.Clients.Interface.{DeviceProfileInterface}
use yurt_device_controller.EdgeX.ProfileClient.{EdgexDeviceProfile}
use yurt_device_controller.Controllers.Kube.{KubeClient, accepted}
use yurt_device_controller.Controllers.Session.{Session, patch}
use yurt_device_controller.Controllers.DeviceProfiles.Reconcile.{
  DeviceProfileReconciler, remove_profile, reconcile_delete_device_profile, after_profile_delete,
  reconcile_loaded,
}
use yurt_device_controller.Controllers.DeviceProfiles.Deletion.{profile_deletion_needs_clearing}
use yurt_device_controller.Tests.Samples.{Platform, sample_metadata}
use yurt_device_controller.Tests.Wire.{go, http, codec}

abbrev profile : DeviceProfile
profile = record {
  metadata = record sample_metadata { name = "thermo" };
  spec = record {
    node_pool = "hangzhou";
    description = "";
    manufacturer = "";
    model = "";
    labels = [];
    device_resources = [];
    device_commands = [];
  };
  status = record { edge_id = "p1"; synced = true };
}

abbrev pub unsynced_profile : DeviceProfile
unsynced_profile = record profile { status = record { edge_id = ""; synced = false } }

abbrev dying_profile : DeviceProfile
dying_profile = record profile {
  metadata = record (profile.metadata) { deletion_timestamp = some 5 };
}

abbrev used_error : Error
used_error = new_error "device profile is used by devices"

-- An edge platform without device profiles, which deletes none and accepts new ones.
abbrev profile_edge : DeviceProfileInterface Platform
profile_edge = record {
  create = λ d p. (ok (record d { status = record { edge_id = "p9"; synced = true } }), p);
  delete = λ n p. (fail used_error, p);
  update = λ d p. (ok none, p);
  get = λ n p. (fail (new_error "DeviceProfile not found"), p);
  list = λ p. (ok [], p);
}

abbrev pub profile_cluster : KubeClient Platform DeviceProfile
profile_cluster = record {
  get = λ n p. (value profile, p);
  patch_finalizers =
      λ d fs p. (value (record d { metadata = record (d.metadata) { finalizers = fs } }), p);
  update_status = λ d p. (value d, p);
  create = λ d p. (value tt, p);
  delete = λ d p. (value tt, p);
  list = λ pool namespace p. (value [], p);
}

abbrev reconciler : DeviceProfileReconciler Platform
reconciler = record { client = profile_cluster; edge_client = profile_edge; node_pool = "hangzhou" }

abbrev begin : DeviceProfile → Session Platform DeviceProfile
begin d = record { world = []; object = d; trace = [] }

profile_deletion_needs_clearing_example :
    accepted (profile_cluster.patch_finalizers dying_profile [] []).0 ≡ true
unfolding reconcile_loaded reconcile_delete_device_profile remove_profile patch after_profile_delete
    is_not_found_err
profile_deletion_needs_clearing_example =
    (profile_deletion_needs_clearing reconciler [] dying_profile refl).1

abbrev profile_client : EdgexDeviceProfile Platform
profile_client = record { http = http 404; codec = codec; go = go; core_meta_addr = "meta:59881" }
