-- ===== src/Controllers/DeviceProfileSyncer/Convergence.antt =====
-- What an undisturbed round of the synchronization of device profiles comes to.
use yurt_device_controller.Prelude.{
  String, ◌≡◌, arith, List, [], map, true, Option, is_some, eq_iff,
}
use yurt_device_controller.Prelude.Dict.{Dict}
use yurt_device_controller.Prelude.Io.{ok, value}
use yurt_device_controller.Api.{DeviceProfile}
use yurt_device_controller.EdgeX.Dto.{EdgeXDeviceProfile}
use yurt_device_controller.EdgeX.Names.{GoText, edgex_object_name, get_edge_device_profile_name}
use yurt_device_controller.EdgeX.Profiles.{to_kube_device_profile}
use yurt_device_controller.Controllers.Differences.{keyed_by_name}
use yurt_device_controller.Controllers.Differences.Rounds.{Steady, IsCreatable, kube_names, wanted}
use yurt_device_controller.Controllers.Differences.Lists.{map-AllItems, lists_applied}
use yurt_device_controller.Controllers.DeviceProfileSyncer.{
  DeviceProfileSyncer, profile_contents, create_profile_content, apply_differences, sync_round,
  get_all_device_profiles,
}

module _ {W : Type 0} (dps : DeviceProfileSyncer W) (stands : W → String → Option String)
    (steady : Steady dps.client
      (profile_contents dps).edge_name
      (λ d. d.metadata.name)
      stands) where
  -- The map that `getAllDeviceProfiles` makes of a list.
  abbrev pub by_profile_name : List DeviceProfile → Dict DeviceProfile
  by_profile_name = keyed_by_name (profile_contents dps) []

  listed_profile_keeps_name :
      (go : GoText) (edp : EdgeXDeviceProfile)
      → let d = to_kube_device_profile go edp in
        get_edge_device_profile_name (create_profile_content dps d) edgex_object_name
        ≡ get_edge_device_profile_name d edgex_object_name
  unfolding get_edge_device_profile_name create_profile_content to_kube_device_profile
  listed_profile_keeps_name go edp = ground (arith, eq_iff edgex_object_name edgex_object_name)

  -- A round that can list both platforms, over a cluster that is steady, has what it lists, and has
  -- no two resources for one name on the edge platform, returns, provided that the resources to be
  -- made get names in Kubernetes that are free, valid and different; the cluster then has a resource
  -- for a name exactly if the edge platform has a profile of that name, or the cluster had one that is
  -- not synced.
  pub profile_round_converges :
      (go : GoText) (edge : List EdgeXDeviceProfile) (kube : List DeviceProfile) (w w₁ w₂ : W)
      → dps.edge_client.list w ≡ (ok (map (to_kube_device_profile go) edge), w₁)
      → dps.client.list dps.node_pool dps.namespace w₁ ≡ (value kube, w₂)
      → IsCreatable
          (λ d. (create_profile_content dps d).metadata.name)
          (steady.refuses w₂)
          (by_profile_name (map (to_kube_device_profile go) edge))
          (by_profile_name kube)
      → steady.single w₂ ≡ true
      → ((k : String) → stands w₂ k ≡ kube_names (λ d. d.metadata.name) (by_profile_name kube) k)
      → (w₃ : W) × (sync_round dps w ≡ (ok tt, w₃))
        × ((k : String)
            → is_some (stands w₃ k)
              ≡ wanted
                  (λ d. d.status.synced)
                  (by_profile_name (map (to_kube_device_profile go) edge))
                  (by_profile_name kube)
                  k)
  unfolding sync_round get_all_device_profiles apply_differences
  profile_round_converges go edge kube w w₁ w₂ listed listed' creatable single seen =
      let c = profile_contents dps in
      let profiles = map (to_kube_device_profile go) edge in
      let kept =
        map-AllItems (λ x. c.edge_name (c.create_content x) ≡ c.edge_name x)
          (to_kube_device_profile go) edge (listed_profile_keeps_name go) in
      let (w₃, w₄, e, e', after) =
        lists_applied c dps.client (λ d. d.metadata.name) stands steady profiles kube w₂ kept
          creatable single seen in
      (w₄, ground arith, after)
