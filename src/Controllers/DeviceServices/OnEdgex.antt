-- ===== src/Controllers/DeviceServices/OnEdgex.antt =====
-- The client of EdgeX (pkg/clients/edgex-foundry/deviceservice_client.go) over a core-metadata
-- service that keeps device services is an edge platform that answers.
use yurt_device_controller.Prelude.{◌≡◌, arith, Bool, true, false, String, ◌<>◌, some, [], ◌∷◌}
use yurt_device_controller.Prelude.Io.{value, ok, new_error}
use yurt_device_controller.Api.{DeviceService}
use yurt_device_controller.Clients.Errors.{not_found_suffix}
use yurt_device_controller.EdgeX.Dto.{EdgeXDeviceService}
use yurt_device_controller.EdgeX.Names.{get_edgex_name, get_edge_device_service_name}
use yurt_device_controller.EdgeX.Services.{make_edgex_device_service, to_kube_device_service}
use yurt_device_controller.EdgeX.Http.{get_method, post_method}
use yurt_device_controller.EdgeX.ServiceClient.{
  EdgexDeviceServiceClient, service_url, service_interface, create_service, get_service,
}
use yurt_device_controller.Controllers.Session.Synced.{
  Stored, EdgeAnswers, ClusterAnswers, IsNew, IsSynced,
}
use yurt_device_controller.Controllers.Session.{Session}
use yurt_device_controller.Controllers.Kube.{done}
use yurt_device_controller.Controllers.DeviceServices.Reconcile.{reconcile_loaded}
use yurt_device_controller.Controllers.DeviceServices.Lifecycle.{DeviceServiceReconciler}
use yurt_device_controller.Controllers.DeviceServices.Convergence.{kind, new_service_gets_in_sync}

-- The service answers a search for the device service of the name with the device service, or
-- with status 404, and, while it has none, the creation of a device service of that name that it
-- accepts with one entry of status 201. `accepted` tells which it accepts, by their
-- specifications. None of this changes the cluster.
pub record HoldsServices {W : Type 0} (eds : EdgexDeviceServiceClient W) (name : String)
    (on_edge : W → Bool) (stored : W → Stored) (accepted : DeviceService → Bool) : Type 0 where
  pub found :
      (w : W)
      → on_edge w ≡ true
      → (body : String) × (w' : W) × (e : EdgeXDeviceService) × (eds.http.send get_method
            (service_url eds ("/name/" <> name))
            ""
            w
          ≡ (value (record { status_code = 200; body = body }), w'))
        × (eds.codec.decode_service body ≡ value e)
        × (on_edge w' ≡ true)
        × (stored w' ≡ stored w)
  pub missing :
      (w : W)
      → on_edge w ≡ false
      → (body : String) × (w' : W) × (eds.http.send get_method
            (service_url eds ("/name/" <> name))
            ""
            w
          ≡ (value (record { status_code = 404; body = body }), w'))
        × (on_edge w' ≡ false)
        × (stored w' ≡ stored w)
  pub accepts :
      (d : DeviceService) (w : W)
      → get_edgex_name d.metadata ≡ name
      → accepted d ≡ true
      → on_edge w ≡ false
      → (body reply id : String) × (w' : W) × (eds.codec.encode_services
            (make_edgex_device_service (d ∷ []))
          ≡ value body)
        × (eds.http.send post_method (service_url eds "") body w
            ≡ (value (record { status_code = 207; body = reply }), w'))
        × (eds.codec.decode_ids reply ≡ value (some (record { status_code = 201; id = id }) ∷ []))
        × (on_edge w' ≡ true)
        × (stored w' ≡ stored w)

module _ {W : Type 0} (r : DeviceServiceReconciler W) (eds : EdgexDeviceServiceClient W)
    (name : String) (on_edge : W → Bool) (stored : W → Stored)
    (accepted : DeviceService → Bool) where
  -- Over a core-metadata service that answers a search for the device service of a name with the
  -- device service or with status 404, and, while it has none, the creation of a device service of that name with one
  -- entry of status 201: the client of EdgeX finds the device service where the service has it, tells
  -- that it is not found where the service has it not, and creates it.
  pub edgex_service_client-EdgeAnswers :
      HoldsServices eds name on_edge stored accepted
      → EdgeAnswers
          (kind (record r { device_service_cli = service_interface eds }) accepted)
          name
          on_edge
          stored
  unfolding get_service create_service get_edgex_name get_edge_device_service_name
  edgex_service_client-EdgeAnswers holds = record {
    finds = λ w there.
        let (body, w', e, sent, decoded, present, kept) = holds.found w there in
        (to_kube_device_service eds.go e, w', ground (arith, sent, decoded), present, kept);
    misses = λ w away.
        let (body, w', sent, away', kept) = holds.missing w away in
        (
          new_error (("deviceservice " <> name) <> " not found"),
          w',
          ground (arith, sent),
          not_found_suffix ("deviceservice " <> name),
          away',
          kept,
        );
    creates = λ d w named takes away.
        let (body, reply, id, w', encoded, sent, decoded, present, kept) =
          holds.accepts d w named takes away in
        (
          record d { status = record (d.status) { edge_id = id; synced = true } },
          w',
          ground (arith, encoded, sent, decoded),
          present,
          kept,
        );
  }

  -- Where the cluster takes the writes from an object with its present metadata, and the core-
  -- metadata service answers a search for the device service of the name with it or with status
  -- 404, and, while it has none, the creation of one of that name that it accepts with one entry
  -- of status 201: one call of the reconciler over the client of EdgeX, for the device service
  -- of that name, alive, not synced, accepted and as the cluster has it, returns, and afterwards
  -- the service has the device service, and the object and the resource in the cluster are
  -- synced, whether the service had it before or not.
  pub service_gets_in_sync_on_edgex :
      (w : W) (d : DeviceService)
      → ClusterAnswers
          (kind (record r { device_service_cli = service_interface eds }) accepted)
          on_edge
          stored
      → HoldsServices eds name on_edge stored accepted
      → d.spec.node_pool ≡ r.node_pool
      → IsNew
          (kind (record r { device_service_cli = service_interface eds }) accepted)
          name
          on_edge
          stored
          w
          d
      → (s : Session W DeviceService) × (reconcile_loaded
            (record r { device_service_cli = service_interface eds })
            w
            d
          ≡ (ok done, s))
        × IsSynced
            (kind (record r { device_service_cli = service_interface eds }) accepted)
            name
            on_edge
            stored
            s
  service_gets_in_sync_on_edgex w d cluster holds own new =
      new_service_gets_in_sync (record r { device_service_cli = service_interface eds }) name
        on_edge stored accepted
        (record { cluster = cluster; edge = edgex_service_client-EdgeAnswers holds }) w d own new
