-- ===== src/EdgeX/ServiceClient/Safe.antt =====
-- When the client of device services does not panic.
use yurt_device_controller.Prelude.{String, ◌≢◌, refl, arith, Option, none, some, List, [], ◌∷◌}
use yurt_device_controller.Prelude.Safe.{Safe}
use yurt_device_controller.Api.{DeviceService}
use yurt_device_controller.EdgeX.Http.{HasEntries, IdResponse}
use yurt_device_controller.EdgeX.ServiceClient.{
  EdgexDeviceServiceClient, created_service, create_service, delete_service, update_service,
  get_service, list_services,
}

module _ {W : Type 0} (eds : EdgexDeviceServiceClient W) where
  created_service-Safe :
      (d : DeviceService) (body : String) (ids : List (Option IdResponse))
      → ids ≢ none ∷ []
      → Safe (created_service eds d body ids)
  unfolding created_service
  created_service-Safe d body [] h s = refl
  created_service-Safe d body (none ∷ []) h s = absurd (h refl)
  created_service-Safe d body (some r ∷ []) h s = ground arith
  created_service-Safe d body (none ∷ i ∷ is) h s = refl
  created_service-Safe d body (some r ∷ i ∷ is) h s = refl

  pub create_service-Safe :
      (d : DeviceService) → HasEntries eds.http eds.codec → Safe (create_service eds d)
  unfolding create_service
  create_service-Safe d entries w = grind (arith, created_service-Safe, entries)

  pub delete_service-Safe : (name : String) → Safe (delete_service eds name)
  unfolding delete_service
  delete_service-Safe name w = ground arith

  pub update_service-Safe : (d : DeviceService) → Safe (update_service eds d)
  unfolding update_service
  update_service-Safe d w = ground arith

  pub get_service-Safe : (name : String) → Safe (get_service eds name)
  unfolding get_service
  get_service-Safe name w = ground arith

  pub list_services-Safe : Safe (list_services eds)
  unfolding list_services
  list_services-Safe w = ground arith
