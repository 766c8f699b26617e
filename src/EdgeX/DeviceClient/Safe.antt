-- ===== src/EdgeX/DeviceClient/Safe.antt =====
-- When the client of devices does not panic.
use yurt_device_controller.Prelude.{
  inl, inr, String, ◌≡◌, ◌≢◌, refl, arith, false, Option, none, some, List, [], ◌∷◌,
}
use yurt_device_controller.Prelude.Io.{value}
use yurt_device_controller.Prelude.Safe.{Safe, panicked}
use yurt_device_controller.Api.{Device}
use yurt_device_controller.EdgeX.Devices.{to_kube_device}
use yurt_device_controller.EdgeX.Dto.{EdgeXDevice}
use yurt_device_controller.EdgeX.Http.{Response, get_method, HasEntries, IdResponse}
use yurt_device_controller.Controllers.Session.{any}
use yurt_device_controller.EdgeX.DeviceClient.Locations.{
  has_odd_location, to_kube_device-panic, map_outcome-panic,
}
use yurt_device_controller.EdgeX.DeviceClient.Client.{
  EdgexDeviceClient, create, create_answered, created_device, delete, update, get, list,
  map_outcome,
}
use yurt_device_controller.EdgeX.DeviceClient.Properties.{
  update_property_state, get_command_response_by_name,
}

module _ {W : Type 0} (efc : EdgexDeviceClient W) where
  -- In the answers that the service gives to a GET, the location of a device is absent or a text.
  pub record HasLocations : Type 0 where
    pub one :
        (url : String) (w : W) (resp : Response) (ed : EdgeXDevice)
        → (efc.http.send get_method url "" w).0 ≡ value resp
        → efc.codec.decode_device resp.body ≡ value ed
        → has_odd_location ed ≡ false
    pub all :
        (url : String) (w : W) (resp : Response) (eds : List EdgeXDevice)
        → (efc.http.send get_method url "" w).0 ≡ value resp
        → efc.codec.decode_devices resp.body ≡ value eds
        → any has_odd_location eds ≡ false

  created_device-Safe :
      (d : Device) (body : String) (ids : List (Option IdResponse))
      → ids ≢ none ∷ []
      → Safe (created_device efc d body ids)
  unfolding created_device
  created_device-Safe d body [] h s = refl
  created_device-Safe d body (none ∷ []) h s = absurd (h refl)
  created_device-Safe d body (some r ∷ []) h s = ground arith
  created_device-Safe d body (none ∷ i ∷ is) h s = refl
  created_device-Safe d body (some r ∷ i ∷ is) h s = refl

  pub create-Safe : (d : Device) → HasEntries efc.http efc.codec → Safe (create efc d)
  unfolding create create_answered
  create-Safe d entries w = grind (arith, created_device-Safe, entries)

  pub delete-Safe : (name : String) → Safe (delete efc name)
  unfolding delete
  delete-Safe name w = ground arith

  pub update-Safe : (d : Device) → Safe (update efc d)
  unfolding update
  update-Safe d w = ground arith

  to_kube_device-Safe :
      (ed : EdgeXDevice) → has_odd_location ed ≡ false → panicked (to_kube_device efc.go ed) ≡ false
  to_kube_device-Safe ed plain = elim (to_kube_device-panic efc.go ed) [
    | inl (e, odd) ↦ ground (arith, plain, odd)
    | inr (d, e, plain') ↦ ground (arith, e)
  ]

  map_outcome-Safe :
      (eds : List EdgeXDevice)
      → any has_odd_location eds ≡ false
      → panicked (map_outcome (to_kube_device efc.go) eds) ≡ false
  map_outcome-Safe eds plain = elim (map_outcome-panic efc.go eds) [
    | inl (e, odd) ↦ ground (arith, plain, odd)
    | inr (ds, e, plain') ↦ ground (arith, e)
  ]

  pub get-Safe : (name : String) → HasLocations → Safe (get efc name)
  unfolding get
  get-Safe name locations w = grind (arith, locations.one, to_kube_device-Safe)

  pub list-Safe : HasLocations → Safe (list efc)
  unfolding list
  list-Safe locations w = grind (arith, locations.all, map_outcome-Safe)

  pub update_property_state-Safe :
      (name : String) (d : Device) → Safe (update_property_state efc name d)
  unfolding update_property_state get_command_response_by_name
  update_property_state-Safe name d w = ground arith
