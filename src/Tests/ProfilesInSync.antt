-- ===== src/Tests/ProfilesInSync.antt =====
-- A world in which one profile is followed: whether the edge platform has it, and what the
-- cluster has of its resource.
use yurt_device_controller.Prelude.{◌≡◌, refl, arith, eq_refl, ap, ◌==◌, Bool, []}
use yurt_device_controller.Prelude.Io.{ok, value}
use yurt_device_controller.EdgeX.Names.{get_edge_device_profile_name}
use yurt_device_controller.Api.{DeviceProfile, ObjectMeta}
use yurt_device_controller.Controllers.Kube.{done}
use yurt_device_controller.Controllers.Session.{Session}
use yurt_device_controller.Controllers.Session.Synced.{ClusterAnswers, IsSynced, IsNew}
use yurt_device_controller.Controllers.DeviceProfiles.OnEdgex.{
  HoldsProfiles, profile_gets_in_sync_on_edgex,
}
use yurt_device_controller.EdgeX.Profiles.{make_edgex_device_profiles_request}
use yurt_device_controller.EdgeX.ProfileClient.{EdgexDeviceProfile, profile_interface}
use yurt_device_controller.Tests.Wire.{go, codec}
use yurt_device_controller.Tests.Rounds.{edge_profile}
use yurt_device_controller.Controllers.DeviceProfiles.Reconcile.{
  DeviceProfileReconciler, reconcile_loaded,
}
use yurt_device_controller.Controllers.DeviceProfiles.Convergence.{kind}
use yurt_device_controller.Tests.InSync.{
  World, on_edge, stored, begin, holding, with_metadata, unless_old, metadata_http,
}
use yurt_device_controller.Tests.Profiles.{unsynced_profile}

abbrev metadata_client : EdgexDeviceProfile World
metadata_client = record {
  http = metadata_http;
  codec = record codec { decode_profile = λ body. value edge_profile };
  go = go;
  core_meta_addr = "meta:59881";
}

abbrev syncing : DeviceProfileReconciler World
syncing = record {
  client = record {
    get = λ n w. (value unsynced_profile, w);
    patch_finalizers = λ d fs w.
        let m : ObjectMeta = record (d.metadata) { finalizers = fs } in
        unless_old d.metadata w (value (record d { metadata = m }), with_metadata m w);
    update_status = λ d w.
        unless_old d.metadata w (value d, record w { resource = (d.metadata, d.status.synced) });
    create = λ d w. (value tt, w);
    delete = λ d w. (value tt, w);
    list = λ pool namespace w. (value [], w);
  };
  edge_client = profile_interface metadata_client;
  node_pool = "hangzhou";
}

abbrev over_edgex : DeviceProfileReconciler World
over_edgex = record syncing { edge_client = profile_interface metadata_client }

-- What the edge platform accepts.
abbrev known : DeviceProfile → Bool
known d = d.spec.model == ""

cluster-ClusterAnswers : ClusterAnswers (kind over_edgex known) on_edge stored
unfolding get_edge_device_profile_name
cluster-ClusterAnswers = record {
  patches = λ d fs w current.
      let m : ObjectMeta = record (d.metadata) { finalizers = fs } in
      let same = ap (λ (x : ObjectMeta). x.resource_version) current in
      (
        record d { metadata = m },
        with_metadata m w,
        ground (arith, same, eq_refl d.metadata.resource_version),
        refl,
        refl,
        refl,
        refl,
        refl,
        refl,
      );
  writes = λ d w current.
      let same = ap (λ (x : ObjectMeta). x.resource_version) current in
      (
        d,
        record w { resource = (d.metadata, d.status.synced) },
        ground (arith, same, eq_refl d.metadata.resource_version),
        refl,
        refl,
        refl,
      );
}

metadata_client-HoldsProfiles : HoldsProfiles metadata_client "thermo" on_edge stored known
unfolding make_edgex_device_profiles_request
metadata_client-HoldsProfiles = record {
  found = λ w there. ("", w, edge_profile, ground arith, refl, there, refl);
  missing = λ w away. ("", w, ground arith, away, refl);
  accepts = λ d w named takes away. ("", "", "e9", holding w, refl, ground arith, refl, refl, refl);
}

unsynced_profile-IsNew :
    IsNew
      (kind over_edgex known)
      "thermo"
      on_edge
      stored
      (begin unsynced_profile.metadata)
      unsynced_profile
unfolding get_edge_device_profile_name
unsynced_profile-IsNew = record {
  named = refl;
  current = refl;
  alive = refl;
  acceptable = refl;
  unsynced = refl;
}

profile_gets_in_sync_on_edgex_example :
    (s : Session World DeviceProfile) × (reconcile_loaded over_edgex
        (begin unsynced_profile.metadata)
        unsynced_profile
      ≡ (ok done, s))
    × IsSynced (kind over_edgex known) "thermo" on_edge stored s
profile_gets_in_sync_on_edgex_example =
    profile_gets_in_sync_on_edgex syncing metadata_client "thermo" on_edge stored known
      (begin unsynced_profile.metadata) unsynced_profile cluster-ClusterAnswers
      metadata_client-HoldsProfiles refl unsynced_profile-IsNew
