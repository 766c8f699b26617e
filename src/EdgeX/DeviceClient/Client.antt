-- ===== src/EdgeX/DeviceClient/Client.antt =====
-- The client and its requests about whole devices: `Create`, `Delete`, `Update`, `Get` and `List` of
-- pkg/clients/edgex-foundry/device_client.go.
pub mod Created
use yurt_device_controller.Prelude.{
  ℕ, String, ◌<>◌, Bool, true, false, ◌&&◌, ◌||◌, Option, none, some, List, [], ◌∷◌, ◌==◌,
  if◌then◌else◌, contains_text, same_number, is_empty,
}
use yurt_device_controller.Prelude.Dict.{Dict, lookup, insert}
use yurt_device_controller.Prelude.Io.{
  Io, Error, new_error, Result, value, error, Outcome, ok, fail, panic, pure, raise, crash, attempt,
  call, of_result, ◌>>=◌, ◌>>◌,
}
use yurt_device_controller.Api.{Device, DesiredPropertyState, ActualPropertyState}
use yurt_device_controller.Clients.Errors.{not_found_error}
use yurt_device_controller.Clients.Interface.{DeviceInterface}
use yurt_device_controller.EdgeX.Dto.{Any, nil, EdgeXDevice}
use yurt_device_controller.EdgeX.Names.{GoText, get_edgex_name}
use yurt_device_controller.EdgeX.Devices.{
  to_kube_device, make_edgex_device_request, make_edgex_device_update_request,
}
use yurt_device_controller.EdgeX.Http.{
  Http, Codec, Response, IdResponse, CoreCommand, Reading, get_method, post_method, patch_method,
  put_method, delete_method,
}

abbrev pub device_path : String
device_path = "/api/v2/device"

abbrev pub command_response_path : String
command_response_path = "/api/v2/device"

pub record EdgexDeviceClient (W : Type 0) : Type 0 where
  pub http : Http W
  pub codec : Codec
  pub go : GoText
  pub core_meta_addr : String
  pub core_command_addr : String

-- A translation that may panic, on every item of a list.
unfoldable pub map_outcome : {A B : Type 0} → (A → Outcome B) → List A → Outcome (List B)
map_outcome f [] = ok []
map_outcome f (x ∷ xs) =
    let rest = map_outcome f xs in
    elim (f x) [
      | ok y ↦ elim rest [ ok ys ↦ ok (y ∷ ys) | fail e ↦ fail e | panic ↦ panic ]
      | fail e ↦ fail e
      | panic ↦ panic
    ]

abbrev pub settle : {W A : Type 0} → Outcome A → Io W A
settle q w = (q, w)

module _ {W : Type 0} (efc : EdgexDeviceClient W) where
  abbrev pub meta_url : String → String
  meta_url rest = "http://" <> (efc.core_meta_addr <> (device_path <> rest))

  abbrev pub name_url : String → String
  name_url name = meta_url ("/name/" <> name)

  -- What `Create` makes of the answers to its one request.
  unfoldable pub created_device : Device → String → List (Option IdResponse) → Io W Device
  created_device device body (some r ∷ []) =
      if same_number r.status_code 201
      then pure
          (record device { status = record (device.status) { edge_id = r.id; synced = true } })
      else raise (new_error ("create device on edgex foundry failed, the response is : " <> body))
  created_device device body (none ∷ []) = crash
  created_device device body _ = raise (
      new_error
        ("edgex BaseWithIdResponse count mismatch device cound, the response is : " <> body))

  -- From the response on.
  unfoldable pub create_answered : Device → Result Response → Io W Device
  create_answered device (error e) = raise e
  create_answered device (value resp) =
      if same_number resp.status_code 207
      then settle (of_result (efc.codec.decode_ids resp.body)) >>= created_device device resp.body
      else raise
          (new_error ("create device on edgex foundry failed, the response is : " <> resp.body))

  create_encoded : Device → Result String → Io W Device
  create_encoded device (error e) = raise e
  create_encoded device (value body) =
      attempt (call (efc.http.send post_method (meta_url "") body)) >>= create_answered device

  unfoldable pub create : Device → Io W Device
  unfolding create_encoded
  create device =
      create_encoded device (efc.codec.encode_devices (make_edgex_device_request (device ∷ [])))

  unfoldable pub delete : String → Io W (Unit {0})
  delete name = do
    resp ← call (efc.http.send delete_method (name_url name) "")
    if same_number resp.status_code 200 then pure tt else raise (new_error resp.body)

  unfoldable pub update : Device → Io W (Option Device)
  update device = do
    body ←
        settle
          (of_result (efc.codec.encode_updates (make_edgex_device_update_request (device ∷ []))))
    resp ← call (efc.http.send patch_method (meta_url "") body)
    if same_number resp.status_code 207
        then pure (some device)
        else raise (
            new_error (
              "failed to update device: "
              <> (get_edgex_name device.metadata <> (", get response: " <> resp.body))))

  unfoldable pub get : String → Io W Device
  get name = do
    resp ← call (efc.http.send get_method (name_url name) "")
    if same_number resp.status_code 404
        then raise (new_error (("Device " <> name) <> " not found"))
        else (settle (of_result (efc.codec.decode_device resp.body)) >>= λ ed.
            settle (to_kube_device efc.go ed))

  unfoldable pub list : Io W (List Device)
  unfolding map_outcome
  list = do
    resp ← call (efc.http.send get_method (meta_url "/all?limit=-1") "")
    eds ← settle (of_result (efc.codec.decode_devices resp.body))
    settle (map_outcome (to_kube_device efc.go) eds)
