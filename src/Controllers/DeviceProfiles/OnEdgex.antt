-- ===== src/Controllers/DeviceProfiles/OnEdgex.antt =====
-- The client of EdgeX (pkg/clients/edgex-foundry/deviceprofile_client.go) over a core-metadata
-- service that keeps device profiles is an edge platform that answers.
use yurt_device_controller.Prelude.{◌≡◌, arith, Bool, true, false, String, ◌<>◌, some, [], ◌∷◌}
use yurt_device_controller.Prelude.Io.{value, ok, new_error}
use yurt_device_controller.Api.{DeviceProfile}
use yurt_device_controller.Clients.Errors.{not_found_suffix}
use yurt_device_controller.EdgeX.Dto.{EdgeXDeviceProfile}
use yurt_device_controller.EdgeX.Names.{get_edgex_name, get_edge_device_profile_name}
use yurt_device_controller.EdgeX.Profiles.{
  make_edgex_device_profiles_request, to_kube_device_profile,
}
use yurt_device_controller.EdgeX.Http.{get_method, post_method}
use yurt_device_controller.EdgeX.ProfileClient.{
  EdgexDeviceProfile, profile_url, profile_interface, create_profile, get_profile,
}
use yurt_device_controller.Controllers.Session.Synced.{
  Stored, EdgeAnswers, ClusterAnswers, IsNew, IsSynced,
}
use yurt_device_controller.Controllers.Session.{Session}
use yurt_device_controller.Controllers.Kube.{done}
use yurt_device_controller.Controllers.DeviceProfiles.Reconcile.{
  DeviceProfileReconciler, reconcile_loaded,
}
use yurt_device_controller.Controllers.DeviceProfiles.Convergence.{kind, new_profile_gets_in_sync}

-- The service answers a search for the device profile of the name with the device profile, or
-- with status 404, and, while it has none, the creation of a device profile of that name that it
-- accepts with one entry of status 201. `accepted` tells which it accepts, by their
-- specifications. None of this changes the cluster.
pub record HoldsProfiles {W : Type 0} (cdc : EdgexDeviceProfile W) (name : String)
    (on_edge : W → Bool) (stored : W → Stored) (accepted : DeviceProfile → Bool) : Type 0 where
  pub found :
      (w : W)
      → on_edge w ≡ true
      → (body : String) × (w' : W) × (e : EdgeXDeviceProfile) × (cdc.http.send get_method
            (profile_url cdc ("/name/" <> name))
            ""
            w
          ≡ (value (record { status_code = 200; body = body }), w'))
        × (cdc.codec.decode_profile body ≡ value e)
        × (on_edge w' ≡ true)
        × (stored w' ≡ stored w)
  pub missing :
      (w : W)
      → on_edge w ≡ false
      → (body : String) × (w' : W) × (cdc.http.send get_method
            (profile_url cdc ("/name/" <> name))
            ""
            w
          ≡ (value (record { status_code = 404; body = body }), w'))
        × (on_edge w' ≡ false)
        × (stored w' ≡ stored w)
  pub accepts :
      (d : DeviceProfile) (w : W)
      → get_edgex_name d.metadata ≡ name
      → accepted d ≡ true
      → on_edge w ≡ false
      → (body reply id : String) × (w' : W) × (cdc.codec.encode_profiles
            (make_edgex_device_profiles_request (d ∷ []))
          ≡ value body)
        × (cdc.http.send post_method (profile_url cdc "") body w
            ≡ (value (record { status_code = 207; body = reply }), w'))
        × (cdc.codec.decode_ids reply ≡ value (some (record { status_code = 201; id = id }) ∷ []))
        × (on_edge w' ≡ true)
        × (stored w' ≡ stored w)

module _ {W : Type 0} (r : DeviceProfileReconciler W) (cdc : EdgexDeviceProfile W) (name : String)
    (on_edge : W → Bool) (stored : W → Stored) (accepted : DeviceProfile → Bool) where
  -- Over a core-metadata service that answers a search for the device profile of a name with the
  -- device profile or with status 404, and, while it has none, the creation of a device profile of that name with one
  -- entry of status 201: the client of EdgeX finds the device profile where the service has it, tells
  -- that it is not found where the service has it not, and creates it.
  pub edgex_profile_client-EdgeAnswers :
      HoldsProfiles cdc name on_edge stored accepted
      → EdgeAnswers
          (kind (record r { edge_client = profile_interface cdc }) accepted)
          name
          on_edge
          stored
  unfolding get_profile create_profile get_edgex_name get_edge_device_profile_name
  edgex_profile_client-EdgeAnswers holds = record {
    finds = λ w there.
        let (body, w', e, sent, decoded, present, kept) = holds.found w there in
        (to_kube_device_profile cdc.go e, w', ground (arith, sent, decoded), present, kept);
    misses = λ w away.
        let (body, w', sent, away', kept) = holds.missing w away in
        (
          new_error (("DeviceProfile " <> name) <> " not found"),
          w',
          ground (arith, sent),
          not_found_suffix ("DeviceProfile " <> name),
          away',
          kept,
        );
    creates = λ d w named takes away.
        let (body, reply, id, w', encoded, sent, decoded, present, kept) =
          holds.accepts d w named takes away in
        (
          record d { status = record (d.status) { edge_id = id; synced = true } },
          w',
          ground (arith, encoded, sent, decoded),
          present,
          kept,
        );
  }

  -- Where the cluster takes the writes from an object with its present metadata, and the core-
  -- metadata service answers a search for the device profile of the name with it or with status
  -- 404, and, while it has none, the creation of one of that name that it accepts with one entry
  -- of status 201: one call of the reconciler over the client of EdgeX, for the device profile
  -- of that name, alive, not synced, accepted and as the cluster has it, returns, and afterwards
  -- the service has the device profile, and the object and the resource in the cluster are
  -- synced, whether the service had it before or not.
  pub profile_gets_in_sync_on_edgex :
      (w : W) (d : DeviceProfile)
      → ClusterAnswers
          (kind (record r { edge_client = profile_interface cdc }) accepted)
          on_edge
          stored
      → HoldsProfiles cdc name on_edge stored accepted
      → d.spec.node_pool ≡ r.node_pool
      → IsNew
          (kind (record r { edge_client = profile_interface cdc }) accepted)
          name
          on_edge
          stored
          w
          d
      → (s : Session W DeviceProfile) × (reconcile_loaded
            (record r { edge_client = profile_interface cdc })
            w
            d
          ≡ (ok done, s))
        × IsSynced
            (kind (record r { edge_client = profile_interface cdc }) accepted)
            name
            on_edge
            stored
            s
  profile_gets_in_sync_on_edgex w d cluster holds own new =
      new_profile_gets_in_sync (record r { edge_client = profile_interface cdc }) name on_edge
        stored accepted
        (record { cluster = cluster; edge = edgex_profile_client-EdgeAnswers holds }) w d own new
