-- ===== src/Controllers/DeviceProfiles/Creation.antt =====
-- What the first synchronization of a device profile leaves behind.
use yurt_device_controller.Prelude.{
  Bool-cases, inl, inr, List, ◌∷◌, refl, String, ◌≡◌, arith, Bool, true, false, Option, none, some,
  if◌then◌else◌,
}
use yurt_device_controller.Prelude.Io.{Outcome, ok, fail, Error, is_conflict}
use yurt_device_controller.Api.{DeviceProfile}
use yurt_device_controller.Clients.Errors.{is_not_found_err}
use yurt_device_controller.Controllers.Session.{
  Event, Session, any, is_creation, status_written, edge_created, edge_fetched, write_status,
}
use yurt_device_controller.Controllers.DeviceProfiles.Reconcile.{
  DeviceProfileReconciler, add_profile, adopt_profile, reconcile_create_device_profile,
  synchronize_profile,
}

abbrev profile_id_in : Outcome DeviceProfile → Option String
profile_id_in (ok d) = some d.status.edge_id
profile_id_in _ = none

abbrev pub profile_not_found : Outcome DeviceProfile → Bool
profile_not_found (fail e) = is_not_found_err e
profile_not_found _ = false

module _ {W : Type 0} (r : DeviceProfileReconciler W) where
  -- The id that the profile has on the edge platform when the call is over, as far as the answers
  -- tell: that of the profile found, or of the one created where there was none.
  abbrev pub profile_id_after : String → DeviceProfile → W → Option String
  profile_id_after name d w =
      let (found, w') = r.edge_client.get name w in
      if profile_not_found found
      then profile_id_in (r.edge_client.create d w').0
      else profile_id_in found

  -- A device profile is created on the edge platform only after the platform has said that it has
  -- none.
  pub profile_creation_needs_absence :
      (s : Session W DeviceProfile) (name : String)
      → any is_creation s.trace ≡ false
      → any is_creation (reconcile_create_device_profile r name s).1.trace ≡ true
      → profile_not_found (r.edge_client.get name s.world).0 ≡ true
  unfolding reconcile_create_device_profile adopt_profile add_profile write_status
  profile_creation_needs_absence s name quiet h = ground arith

  abbrev known_as : DeviceProfile → String → DeviceProfile
  known_as d id = record d { status = record (d.status) { edge_id = id; synced = true } }

  -- Where the edge platform tells the id of the profile, found or newly created, the call ends with
  -- a write of the status that says synced and has this id.
  pub profile_creation_records_id :
      (s : Session W DeviceProfile) (name id : String)
      → profile_id_after name s.object s.world ≡ some id
      → (d : DeviceProfile) × (earlier : List (Event DeviceProfile))
        × ((reconcile_create_device_profile r name s).1.trace ≡ status_written d ∷ earlier)
        × (d.status.synced ≡ true)
        × (d.status.edge_id ≡ id)
  unfolding reconcile_create_device_profile adopt_profile add_profile write_status
  profile_creation_records_id s name id told =
      elim (Bool-cases (profile_not_found (r.edge_client.get name s.world).0)) [
        | inl absent ↦ (
          known_as s.object id,
          edge_created s.object ∷ edge_fetched name ∷ s.trace,
          ground arith,
          refl,
          refl,
        )
        | inr present ↦
            (known_as s.object id, edge_fetched name ∷ s.trace, ground arith, refl, refl)
      ]

  -- A conflict between writers of a device profile that is created is retried: it never leaves the
  -- reconciler as an error.
  profile_conflict_is_retried :
      (name : String) (d : DeviceProfile) (s : Session W DeviceProfile) {e : Error}
      → (synchronize_profile r name d s).0 ≡ fail e
      → is_conflict e ≡ false
  unfolding synchronize_profile
  profile_conflict_is_retried name d s h = ground arith
