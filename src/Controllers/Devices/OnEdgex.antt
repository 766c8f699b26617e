-- ===== src/Controllers/Devices/OnEdgex.antt =====
-- The client of EdgeX (pkg/clients/edgex-foundry/device_client.go) over a core-metadata service
-- that keeps devices is an edge platform that answers.
use yurt_device_controller.Prelude.{
  ◌≡◌, arith, Bool, true, false, inl, inr, String, ◌<>◌, some, [], ◌∷◌,
}
use yurt_device_controller.Prelude.Io.{value, ok, new_error}
use yurt_device_controller.Api.{Device}
use yurt_device_controller.Clients.Errors.{not_found_suffix}
use yurt_device_controller.EdgeX.Dto.{EdgeXDevice}
use yurt_device_controller.EdgeX.Names.{get_edgex_name, get_edge_device_name}
use yurt_device_controller.EdgeX.Devices.{make_edgex_device_request}
use yurt_device_controller.EdgeX.Http.{get_method, post_method}
use yurt_device_controller.EdgeX.DeviceClient.{device_interface}
use yurt_device_controller.EdgeX.DeviceClient.Client.{
  EdgexDeviceClient, name_url, meta_url, create, create_answered, created_device, get,
}
use yurt_device_controller.EdgeX.DeviceClient.Locations.{has_odd_location, to_kube_device-panic}
use yurt_device_controller.Controllers.Session.Synced.{
  Stored, EdgeAnswers, ClusterAnswers, IsNew, IsSynced,
}
use yurt_device_controller.Controllers.Session.{Session}
use yurt_device_controller.Controllers.Kube.{done}
use yurt_device_controller.Controllers.Devices.Reconcile.{reconcile_loaded}
use yurt_device_controller.Controllers.Devices.Reconciler.{DeviceReconciler}
use yurt_device_controller.Controllers.Devices.Convergence.{kind, new_device_gets_in_sync}

-- The service answers a search for the device of the name with the device, or with status 404,
-- and, while it has none, the creation of a device of that name that it accepts with one entry
-- of status 201. `accepted` tells which it accepts, by their specifications. None of this
-- changes the cluster.
pub record HoldsDevices {W : Type 0} (efc : EdgexDeviceClient W) (name : String)
    (on_edge : W → Bool) (stored : W → Stored) (accepted : Device → Bool) : Type 0 where
  pub found :
      (w : W)
      → on_edge w ≡ true
      → (body : String) × (w' : W) × (ed : EdgeXDevice) × (efc.http.send get_method
            (name_url efc name)
            ""
            w
          ≡ (value (record { status_code = 200; body = body }), w'))
        × (efc.codec.decode_device body ≡ value ed)
        × (has_odd_location ed ≡ false)
        × (on_edge w' ≡ true)
        × (stored w' ≡ stored w)
  pub missing :
      (w : W)
      → on_edge w ≡ false
      → (body : String) × (w' : W) × (efc.http.send get_method (name_url efc name) "" w
          ≡ (value (record { status_code = 404; body = body }), w'))
        × (on_edge w' ≡ false)
        × (stored w' ≡ stored w)
  pub accepts :
      (d : Device) (w : W)
      → get_edgex_name d.metadata ≡ name
      → accepted d ≡ true
      → on_edge w ≡ false
      → (body reply id : String) × (w' : W) × (efc.codec.encode_devices
            (make_edgex_device_request (d ∷ []))
          ≡ value body)
        × (efc.http.send post_method (meta_url efc "") body w
            ≡ (value (record { status_code = 207; body = reply }), w'))
        × (efc.codec.decode_ids reply ≡ value (some (record { status_code = 201; id = id }) ∷ []))
        × (on_edge w' ≡ true)
        × (stored w' ≡ stored w)

module _ {W : Type 0} (r : DeviceReconciler W) (efc : EdgexDeviceClient W) (name : String)
    (on_edge : W → Bool) (stored : W → Stored) (accepted : Device → Bool) where
  -- Over a core-metadata service that answers a search for the device of a name with the device or
  -- with status 404, and, while it has none, the creation of a device of that name with one entry of status 201: the
  -- client of EdgeX finds the device where the service has it, tells that it is not found where
  -- the service has it not, and creates it.
  pub edgex_device_client-EdgeAnswers :
      HoldsDevices efc name on_edge stored accepted
      → EdgeAnswers
          (kind (record r { device_cli = device_interface efc }) accepted)
          name
          on_edge
          stored
  unfolding get create create_answered created_device get_edgex_name get_edge_device_name
  edgex_device_client-EdgeAnswers holds = record {
    finds = λ w there.
        let (body, w', ed, sent, decoded, plain, present, kept) = holds.found w there in
        elim (to_kube_device-panic efc.go ed) [
          | inl (e, odd) ↦ absurd (ground (arith, plain, odd))
          | inr (d, e, _) ↦ (d, w', ground (arith, sent, decoded, e), present, kept)
        ];
    misses = λ w away.
        let (body, w', sent, away', kept) = holds.missing w away in
        (
          new_error (("Device " <> name) <> " not found"),
          w',
          ground (arith, sent),
          not_found_suffix ("Device " <> name),
          away',
          kept,
        );
    creates = λ d w named takes away.
        let (body, reply, id, w', encoded, sent, decoded, present, kept) =
          holds.accepts d w named takes away in
        (
          record d { status = record (d.status) { edge_id = id; synced = true } },
          w',
          ground (arith, encoded, sent, decoded),
          present,
          kept,
        );
  }

  -- Where the cluster takes the writes from an object with its present metadata, and the core-
  -- metadata service answers a search for the device of the name with it or with status 404,
  -- and, while it has none, the creation of one of that name that it accepts with one entry of
  -- status 201: one call of the reconciler over the client of EdgeX, for the device of that
  -- name, alive, not synced, accepted and as the cluster has it, returns, and afterwards the
  -- service has the device, and the object and the resource in the cluster are synced, whether
  -- the service had it before or not.
  pub device_gets_in_sync_on_edgex :
      (w : W) (d : Device)
      → ClusterAnswers
          (kind (record r { device_cli = device_interface efc }) accepted)
          on_edge
          stored
      → HoldsDevices efc name on_edge stored accepted
      → d.spec.node_pool ≡ r.node_pool
      → IsNew
          (kind (record r { device_cli = device_interface efc }) accepted)
          name
          on_edge
          stored
          w
          d
      → (s : Session W Device) × (reconcile_loaded
            (record r { device_cli = device_interface efc })
            w
            d
          ≡ (ok done, s))
        × IsSynced
            (kind (record r { device_cli = device_interface efc }) accepted)
            name
            on_edge
            stored
            s
  device_gets_in_sync_on_edgex w d cluster holds own new =
      new_device_gets_in_sync (record r { device_cli = device_interface efc }) name on_edge stored
        accepted (record { cluster = cluster; edge = edgex_device_client-EdgeAnswers holds }) w d
        own new
