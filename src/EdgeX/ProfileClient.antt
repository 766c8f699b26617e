-- ===== src/EdgeX/ProfileClient.antt =====
-- pkg/clients/edgex-foundry/deviceprofile_client.go: `EdgexDeviceProfile`, which implements
-- `DeviceProfileInterface` by HTTP requests to the core-metadata service.
pub mod Safe
use yurt_device_controller.Prelude.{
  String, ◌<>◌, true, Option, none, some, List, [], ◌∷◌, if◌then◌else◌, map, same_number,
}
use yurt_device_controller.Prelude.Io.{Io, new_error, pure, raise, crash, call, of_result, ◌>>=◌}
use yurt_device_controller.Api.{DeviceProfile}
use yurt_device_controller.Clients.Interface.{DeviceProfileInterface}
use yurt_device_controller.EdgeX.Names.{GoText}
use yurt_device_controller.EdgeX.Profiles.{
  to_kube_device_profile, make_edgex_device_profiles_request,
}
use yurt_device_controller.EdgeX.Http.{
  Http, Codec, IdResponse, get_method, post_method, delete_method,
}
use yurt_device_controller.EdgeX.DeviceClient.Client.{settle}

abbrev pub device_profile_path : String
device_profile_path = "/api/v2/deviceprofile"

pub record EdgexDeviceProfile (W : Type 0) : Type 0 where
  pub http : Http W
  pub codec : Codec
  pub go : GoText
  pub core_meta_addr : String

module _ {W : Type 0} (cdc : EdgexDeviceProfile W) where
  abbrev pub profile_url : String → String
  profile_url rest = "http://" <> (cdc.core_meta_addr <> (device_profile_path <> rest))

  -- `getListDeviceProfileURL`
  abbrev pub list_device_profile_url : String
  list_device_profile_url = profile_url "/all?limit=-1"

  unfoldable pub list_profiles : Io W (List DeviceProfile)
  list_profiles = do
    resp ← call (cdc.http.send get_method list_device_profile_url "")
    profiles ← settle (of_result (cdc.codec.decode_profiles resp.body))
    pure (map (to_kube_device_profile cdc.go) profiles)

  unfoldable pub get_profile : String → Io W DeviceProfile
  get_profile name = do
    resp ← call (cdc.http.send get_method (profile_url ("/name/" <> name)) "")
    if same_number resp.status_code 404
        then raise (new_error (("DeviceProfile " <> name) <> " not found"))
        else (settle (of_result (cdc.codec.decode_profile resp.body)) >>= λ dp.
            pure (to_kube_device_profile cdc.go dp))

  created_profile : DeviceProfile → String → List (Option IdResponse) → Io W DeviceProfile
  created_profile d body (some r ∷ []) =
      if same_number r.status_code 201
      then pure (record d { status = record (d.status) { edge_id = r.id; synced = true } })
      else raise
          (new_error ("create deviceprofile on edgex foundry failed, the response is : " <> body))
  created_profile d body (none ∷ []) = crash
  created_profile d body _ = raise (
      new_error
        ("edgex BaseWithIdResponse count mismatch DeviceProfile count, the response is : " <> body))

  unfoldable pub create_profile : DeviceProfile → Io W DeviceProfile
  unfolding created_profile
  create_profile d = do
    body ←
        settle (of_result (cdc.codec.encode_profiles (make_edgex_device_profiles_request (d ∷ []))))
    resp ← call (cdc.http.send post_method (profile_url "") body)
    if same_number resp.status_code 207
        then (settle (of_result (cdc.codec.decode_ids resp.body)) >>= created_profile d resp.body)
        else raise (new_error ("create edgex deviceProfile err: " <> resp.body))

  -- The edge platform does not support the update of a profile: `nil, nil`.
  abbrev pub update_profile : DeviceProfile → Io W (Option DeviceProfile)
  update_profile d = pure none

  unfoldable pub delete_profile : String → Io W (Unit {0})
  delete_profile name = do
    resp ← call (cdc.http.send delete_method (profile_url ("/name/" <> name)) "")
    if same_number resp.status_code 200
        then pure tt
        else raise (new_error ("delete edgex deviceProfile err: " <> resp.body))

  -- The client as the controllers see it.
  abbrev pub profile_interface : DeviceProfileInterface W
  profile_interface = record {
    create = create_profile;
    delete = delete_profile;
    update = update_profile;
    get = get_profile;
    list = list_profiles;
  }
