-- ===== src/EdgeX/ServiceClient.antt =====
-- pkg/clients/edgex-foundry/deviceservice_client.go: `EdgexDeviceServiceClient`, which implements
-- `DeviceServiceInterface` by HTTP requests to the core-metadata service.
pub mod Safe
use yurt_device_controller.Prelude.{
  true, String, ◌<>◌, ◌||◌, Option, none, some, List, [], ◌∷◌, ◌==◌, if◌then◌else◌, map,
  same_number,
}
use yurt_device_controller.Prelude.Io.{Io, new_error, pure, raise, crash, call, of_result, ◌>>=◌}
use yurt_device_controller.Api.{DeviceService}
use yurt_device_controller.Clients.Interface.{DeviceServiceInterface}
use yurt_device_controller.EdgeX.Names.{GoText}
use yurt_device_controller.EdgeX.Services.{
  to_edgex_device_service, to_kube_device_service, make_edgex_device_service,
}
use yurt_device_controller.EdgeX.Http.{
  Http, Codec, IdResponse, get_method, post_method, patch_method, delete_method,
}
use yurt_device_controller.EdgeX.DeviceClient.Client.{settle}

abbrev pub device_service_path : String
device_service_path = "/api/v2/deviceservice"

pub record EdgexDeviceServiceClient (W : Type 0) : Type 0 where
  pub http : Http W
  pub codec : Codec
  pub go : GoText
  pub core_meta_addr : String

module _ {W : Type 0} (eds : EdgexDeviceServiceClient W) where
  abbrev pub service_url : String → String
  service_url rest = "http://" <> (eds.core_meta_addr <> (device_service_path <> rest))

  created_service : DeviceService → String → List (Option IdResponse) → Io W DeviceService
  created_service d body (some r ∷ []) =
      if same_number r.status_code 201
      then pure (record d { status = record (d.status) { edge_id = r.id; synced = true } })
      else raise
          (new_error ("create DeviceService on edgex foundry failed, the response is : " <> body))
  created_service d body (none ∷ []) = crash
  created_service d body _ = raise (
      new_error
        ("edgex BaseWithIdResponse count mismatch DeviceService count, the response is : " <> body))

  unfoldable pub create_service : DeviceService → Io W DeviceService
  unfolding created_service
  create_service d = do
    body ← settle (of_result (eds.codec.encode_services (make_edgex_device_service (d ∷ []))))
    resp ← call (eds.http.send post_method (service_url "") body)
    if same_number resp.status_code 207
        then (settle (of_result (eds.codec.decode_ids resp.body)) >>= created_service d resp.body)
        else raise (
            new_error
              ("create DeviceService on edgex foundry failed, the response is : " <> resp.body))

  unfoldable pub delete_service : String → Io W (Unit {0})
  delete_service name = do
    resp ← call (eds.http.send delete_method (service_url ("/name/" <> name)) "")
    if same_number resp.status_code 200
        then pure tt
        else raise (new_error ("delete edgex deviceservice err: " <> resp.body))

  unfoldable pub update_service : DeviceService → Io W (Option DeviceService)
  update_service d =
      if d.status.edge_id == ""
      then raise (
          new_error
            ("failed to update deviceservice " <> (d.metadata.name <> " with empty edgex id")))
      else do
        body ← settle (
            of_result (
              eds.codec.encode_service
                (record (to_edgex_device_service d) { id = d.status.edge_id })))
        resp ← call (eds.http.send patch_method (service_url "") body)
        if same_number resp.status_code 200 || same_number resp.status_code 207
            then pure (some d)
            else raise (
                new_error (
                  "request to patch deviceservice failed, errcode:"
                  <> eds.go.format_int resp.status_code))

  unfoldable pub get_service : String → Io W DeviceService
  get_service name = do
    resp ← call (eds.http.send get_method (service_url ("/name/" <> name)) "")
    if same_number resp.status_code 404
        then raise (new_error (("deviceservice " <> name) <> " not found"))
        else (settle (of_result (eds.codec.decode_service resp.body)) >>= λ d.
            pure (to_kube_device_service eds.go d))

  unfoldable pub list_services : Io W (List DeviceService)
  list_services = do
    resp ← call (eds.http.send get_method (service_url "/all?limit=-1") "")
    services ← settle (of_result (eds.codec.decode_services resp.body))
    pure (map (to_kube_device_service eds.go) services)

  -- The client as the controllers see it.
  abbrev pub service_interface : DeviceServiceInterface W
  service_interface = record {
    create = create_service;
    delete = delete_service;
    update = update_service;
    get = get_service;
    list = list_services;
  }
