-- ===== src/Controllers/DeviceServiceSyncer/Convergence.antt =====
-- What an undisturbed round of the synchronization of device services comes to.
use yurt_device_controller.Prelude.{
  String, ◌≡◌, ◌∙◌, arith, List, [], ◌∷◌, map, true, Option, is_some, refl, ap, eq_iff,
}
use yurt_device_controller.Prelude.Dict.{Dict}
use yurt_device_controller.Prelude.Io.{ok, value}
use yurt_device_controller.Api.{DeviceService}
use yurt_device_controller.EdgeX.Dto.{EdgeXDeviceService}
use yurt_device_controller.EdgeX.Names.{GoText, edgex_object_name, get_edge_device_service_name}
use yurt_device_controller.EdgeX.Services.{to_kube_device_service}
use yurt_device_controller.Controllers.Differences.{find_differences}
use yurt_device_controller.Controllers.Differences.Rounds.{Steady, IsCreatable, kube_names, wanted}
use yurt_device_controller.Controllers.Differences.Lists.{map-AllItems, lists_applied}
use yurt_device_controller.Controllers.DeviceServiceSyncer.{
  DeviceServiceSyncer, service_contents, create_service_content, update_device_services,
  apply_differences, sync_round, get_all_device_services,
}
use yurt_device_controller.Controllers.DeviceServiceSyncer.Rounds.{by_edge_name}

module _ {W : Type 0} (ds : DeviceServiceSyncer W) (stands : W → String → Option String)
    (steady : Steady ds.client (service_contents ds).edge_name (λ d. d.metadata.name) stands) where
  update_device_services-stands :
      (m : Dict DeviceService) (w : W) (k : String)
      → stands (update_device_services ds m w).1 k ≡ stands w k
  unfolding update_device_services
  update_device_services-stands [] w k = refl
  update_device_services-stands ((j, d) ∷ m) w k =
      let w' = (ds.client.update_status d w).1 in
      ground (
        arith,
        steady.updates d w k,
        update_device_services-stands m w k,
        update_device_services-stands m w' k,
      )

  listed_service_keeps_name :
      (go : GoText) (eds : EdgeXDeviceService)
      → let d = to_kube_device_service go eds in
        get_edge_device_service_name (create_service_content ds d) edgex_object_name
        ≡ get_edge_device_service_name d edgex_object_name
  unfolding get_edge_device_service_name create_service_content to_kube_device_service
  listed_service_keeps_name go eds = ground (arith, eq_iff edgex_object_name edgex_object_name)

  -- A round that can list both platforms, over a cluster that is steady, has what it lists, and has
  -- no two resources for one name on the edge platform, returns, provided that the resources to be
  -- made get names in Kubernetes that are free, valid and different; the cluster then has a resource
  -- for a name exactly if the edge platform has a service of that name, or the cluster had one that is
  -- not synced.
  pub service_round_converges :
      (go : GoText) (edge : List EdgeXDeviceService) (kube : List DeviceService) (w w₁ w₂ : W)
      → ds.device_service_cli.list w ≡ (ok (map (to_kube_device_service go) edge), w₁)
      → ds.client.list ds.node_pool ds.namespace w₁ ≡ (value kube, w₂)
      → IsCreatable
          (λ d. (create_service_content ds d).metadata.name)
          (steady.refuses w₂)
          (by_edge_name ds (map (to_kube_device_service go) edge))
          (by_edge_name ds kube)
      → steady.single w₂ ≡ true
      → ((k : String) → stands w₂ k ≡ kube_names (λ d. d.metadata.name) (by_edge_name ds kube) k)
      → (w₃ : W) × (sync_round ds w ≡ (ok tt, w₃))
        × ((k : String)
            → is_some (stands w₃ k)
              ≡ wanted
                  (λ d. d.status.synced)
                  (by_edge_name ds (map (to_kube_device_service go) edge))
                  (by_edge_name ds kube)
                  k)
  unfolding sync_round get_all_device_services apply_differences
  service_round_converges go edge kube w w₁ w₂ listed listed' creatable single seen =
      let c = service_contents ds in
      let devices = map (to_kube_device_service go) edge in
      let kept =
        map-AllItems (λ x. c.edge_name (c.create_content x) ≡ c.edge_name x)
          (to_kube_device_service go) edge (listed_service_keeps_name go) in
      let (w₃, w₄, e, e', after) =
        lists_applied c ds.client (λ d. d.metadata.name) stands steady devices kube w₂ kept
          creatable single seen in
      let (red_e, red_k, synced) =
        find_differences c (by_edge_name ds devices) (by_edge_name ds kube) in
      (
        (update_device_services ds synced w₄).1,
        ground arith,
        λ k. ap is_some (update_device_services-stands synced w₄ k) ∙ after k,
      )
