-- ===== src/EdgeX/ProfileClient/Safe.antt =====
-- When the client of device profiles does not panic.
use yurt_device_controller.Prelude.{String, ◌≢◌, refl, arith, Option, none, some, List, [], ◌∷◌}
use yurt_device_controller.Prelude.Safe.{Safe}
use yurt_device_controller.Api.{DeviceProfile}
use yurt_device_controller.EdgeX.Http.{HasEntries, IdResponse}
use yurt_device_controller.EdgeX.ProfileClient.{
  EdgexDeviceProfile, created_profile, create_profile, delete_profile, get_profile, list_profiles,
}

module _ {W : Type 0} (cdc : EdgexDeviceProfile W) where
  created_profile-Safe :
      (d : DeviceProfile) (body : String) (ids : List (Option IdResponse))
      → ids ≢ none ∷ []
      → Safe (created_profile cdc d body ids)
  unfolding created_profile
  created_profile-Safe d body [] h s = refl
  created_profile-Safe d body (none ∷ []) h s = absurd (h refl)
  created_profile-Safe d body (some r ∷ []) h s = ground arith
  created_profile-Safe d body (none ∷ i ∷ is) h s = refl
  created_profile-Safe d body (some r ∷ i ∷ is) h s = refl

  pub create_profile-Safe :
      (d : DeviceProfile) → HasEntries cdc.http cdc.codec → Safe (create_profile cdc d)
  unfolding create_profile
  create_profile-Safe d entries w = grind (arith, created_profile-Safe, entries)

  pub delete_profile-Safe : (name : String) → Safe (delete_profile cdc name)
  unfolding delete_profile
  delete_profile-Safe name w = ground arith

  pub get_profile-Safe : (name : String) → Safe (get_profile cdc name)
  unfolding get_profile
  get_profile-Safe name w = ground arith

  pub list_profiles-Safe : Safe (list_profiles cdc)
  unfolding list_profiles
  list_profiles-Safe w = ground arith
