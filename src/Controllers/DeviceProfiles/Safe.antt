-- ===== src/Controllers/DeviceProfiles/Safe.antt =====
-- The reconciler and the syncer of device profiles do not panic over the client of EdgeX.
use yurt_device_controller.Prelude.{String, ◌≡◌, arith, false, []}
use yurt_device_controller.Prelude.Safe.{Returns, panicked, Safe}
use yurt_device_controller.Api.{DeviceProfile}
use yurt_device_controller.EdgeX.Http.{HasEntries}
use yurt_device_controller.EdgeX.Names.{edgex_object_name, get_edge_device_profile_name}
use yurt_device_controller.EdgeX.ProfileClient.{EdgexDeviceProfile, profile_interface}
use yurt_device_controller.EdgeX.ProfileClient.Safe.{
  create_profile-Safe, delete_profile-Safe, get_profile-Safe, list_profiles-Safe,
}
use yurt_device_controller.Controllers.Session.{Session, patch, write_status}
use yurt_device_controller.Controllers.DeviceProfiles.Reconcile.{
  DeviceProfileReconciler, remove_profile, reconcile_delete_device_profile, adopt_profile,
  add_profile, reconcile_create_device_profile, synchronize_profile, after_profile_delete,
  reconcile_loaded, reconcile,
}
use yurt_device_controller.Controllers.DeviceProfileSyncer as Syncer

module _ {W : Type 0} (r₀ : DeviceProfileReconciler W) (cdc : EdgexDeviceProfile W) where
  abbrev pub over_edgex : DeviceProfileReconciler W
  over_edgex = record r₀ { edge_client = profile_interface cdc }

  module _ (entries : HasEntries cdc.http cdc.codec) where
    remove_profile-Safe : (name : String) → Safe (remove_profile over_edgex name)
    unfolding remove_profile patch
    remove_profile-Safe name s = grind (arith, delete_profile-Safe cdc)

    reconcile_delete-Safe : (name : String) → Safe (reconcile_delete_device_profile over_edgex name)
    unfolding reconcile_delete_device_profile patch
    reconcile_delete-Safe name s = ground (arith, remove_profile-Safe name s)

    adopt_profile-Safe : (id : String) → Safe (adopt_profile over_edgex id)
    unfolding adopt_profile write_status
    adopt_profile-Safe id s = ground arith

    add_profile-Safe : (d : DeviceProfile) → Safe (add_profile over_edgex d)
    unfolding add_profile
    add_profile-Safe d s =
        grind (arith, create_profile-Safe cdc d entries s.world, adopt_profile-Safe)

    reconcile_create-Safe : (name : String) → Safe (reconcile_create_device_profile over_edgex name)
    unfolding reconcile_create_device_profile
    reconcile_create-Safe name s =
        grind (arith, get_profile-Safe cdc name s.world, add_profile-Safe, adopt_profile-Safe)

    synchronize_profile-Safe :
        (name : String) (d : DeviceProfile) → Safe (synchronize_profile over_edgex name d)
    unfolding synchronize_profile
    synchronize_profile-Safe name d s = ground (arith, reconcile_create-Safe name s)

    loaded-Safe : (w : W) (d : DeviceProfile) → panicked (reconcile_loaded over_edgex w d).0 ≡ false
    unfolding reconcile_loaded after_profile_delete
    loaded-Safe w d =
        let s : Session W DeviceProfile = record { world = w; object = d; trace = [] } in
        let name = get_edge_device_profile_name d edgex_object_name in
        grind (arith, reconcile_delete-Safe name s, synchronize_profile-Safe)

    pub reconcile-Safe : (name : String) → Safe (reconcile over_edgex name)
    unfolding reconcile
    reconcile-Safe name w = grind (arith, loaded-Safe)

pub sync_round-Returns :
    {W : Type 0} (dps : Syncer.DeviceProfileSyncer W) (cdc : EdgexDeviceProfile W)
    → Returns (Syncer.sync_round (record dps { edge_client = profile_interface cdc }))
unfolding Syncer.sync_round Syncer.get_all_device_profiles
sync_round-Returns dps cdc w = ground (arith, list_profiles-Safe cdc w)
