-- ===== src/Controllers/DeviceProfiles/Deletion.antt =====
-- The order of a deletion: the finalizers of a device profile are cleared before the edge platform is
-- asked to delete it; and what is left alone.
use yurt_device_controller.Prelude.{String, ◌≡◌, refl, arith, true, false, [], eq_iff, is_empty}
use yurt_device_controller.Prelude.Io.{Error, ok, fail, Result, value, error, is_not_found}
use yurt_device_controller.Api.{DeviceProfile, is_zero}
use yurt_device_controller.Clients.Errors.{is_not_found_err}
use yurt_device_controller.EdgeX.Names.{edgex_object_name, get_edge_device_profile_name}
use yurt_device_controller.Controllers.Kube.{done, accepted}
use yurt_device_controller.Controllers.Session.{
  Session, any, is_clearing, is_edge_deletion, patch, write_status,
}
use yurt_device_controller.Controllers.DeviceProfiles.Reconcile.{
  DeviceProfileReconciler, remove_profile, reconcile_delete_device_profile, add_profile,
  adopt_profile, reconcile_create_device_profile, synchronize_profile, after_profile_delete,
  reconcile_loaded,
}

module _ {W : Type 0} (r : DeviceProfileReconciler W) where
  deleting_profile :
      (s : Session W DeviceProfile) (name : String)
      → any is_edge_deletion s.trace ≡ false
      → any is_edge_deletion (reconcile_delete_device_profile r name s).1.trace ≡ true
      → (is_zero s.object.metadata.deletion_timestamp ≡ false)
        × (accepted (r.client.patch_finalizers s.object [] s.world).0 ≡ true)
  unfolding reconcile_delete_device_profile patch remove_profile
  deleting_profile s name quiet h = ground arith

  after_profile_delete_deletes_nothing :
      (name : String) (q : Result (Unit {0})) (s : Session W DeviceProfile)
      → any is_edge_deletion (after_profile_delete r name q s).1.trace
        ≡ any is_edge_deletion s.trace
  unfolding after_profile_delete synchronize_profile reconcile_create_device_profile add_profile
      adopt_profile write_status
  after_profile_delete_deletes_nothing name (error e) s = ground arith
  after_profile_delete_deletes_nothing name (value _) s = ground arith

  -- Whatever the calls answer, the edge platform is asked to delete a device profile only if the
  -- resource is being deleted, and only after the cluster has taken the write that clears its
  -- finalizers.
  pub profile_deletion_needs_clearing :
      (w : W) (d : DeviceProfile)
      → any is_edge_deletion (reconcile_loaded r w d).1.trace ≡ true
      → (is_zero d.metadata.deletion_timestamp ≡ false)
        × (accepted (r.client.patch_finalizers d [] w).0 ≡ true)
  unfolding reconcile_loaded
  profile_deletion_needs_clearing w d h =
      let s : Session W DeviceProfile = record { world = w; object = d; trace = [] } in
      grind (
        arith,
        deleting_profile s (get_edge_device_profile_name d edgex_object_name) refl,
        after_profile_delete_deletes_nothing,
      )

  -- Where the edge platform fails to delete the profile, with an error that neither the client nor
  -- the cluster calls "not found", the call ends with that error, and the finalizers are already
  -- cleared: nothing keeps the resource for another attempt.
  pub failed_profile_deletion_is_cleared :
      (w w' w'' : W) (d d' : DeviceProfile) (e : Error)
      → d.spec.node_pool ≡ r.node_pool
      → is_zero d.metadata.deletion_timestamp ≡ false
      → r.client.patch_finalizers d [] w ≡ (value d', w')
      → r.edge_client.delete (get_edge_device_profile_name d edgex_object_name) w' ≡ (fail e, w'')
      → is_not_found_err e ≡ false
      → is_not_found e ≡ false
      → ((reconcile_loaded r w d).0 ≡ fail e)
        × (any is_clearing (reconcile_loaded r w d).1.trace ≡ true)
  unfolding reconcile_loaded reconcile_delete_device_profile patch remove_profile
      after_profile_delete
  failed_profile_deletion_is_cleared w w' w'' d d' e own dying cleared refused there known =
      ground (arith, eq_iff d.spec.node_pool r.node_pool)

  -- A device profile that is alive, has a finalizer and is synced is left alone: the call makes no
  -- request at all, whatever its specification says.
  pub synced_profile_is_left_alone :
      (w : W) (d : DeviceProfile)
      → is_zero d.metadata.deletion_timestamp ≡ true
      → is_empty d.metadata.finalizers ≡ false
      → d.status.synced ≡ true
      → reconcile_loaded r w d ≡ (ok done, record { world = w; object = d; trace = [] })
  unfolding reconcile_loaded reconcile_delete_device_profile after_profile_delete
      synchronize_profile
  synced_profile_is_left_alone w d alive guarded synced = ground arith
