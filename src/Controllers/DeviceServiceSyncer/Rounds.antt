-- ===== src/Controllers/DeviceServiceSyncer/Rounds.antt =====
-- What a round does with one device service.
use yurt_device_controller.Prelude.{String, ◌≡◌, arith, eq_iff, [], ◌∷◌, none, some, false, List}
use yurt_device_controller.Prelude.Dict.{Dict, lookup}
use yurt_device_controller.Prelude.Io.{Error, error, is_conflict}
use yurt_device_controller.Api.{DeviceService}
use yurt_device_controller.EdgeX.Dto.{EdgeXDeviceService}
use yurt_device_controller.EdgeX.Names.{GoText, edgex_object_name, get_edge_device_service_name}
use yurt_device_controller.EdgeX.Services.{to_kube_device_service}
use yurt_device_controller.Controllers.Differences.{find_differences, keyed_by_name}
use yurt_device_controller.Controllers.Differences.Laws.{
  find_differences_by_name, keyed_by_name-HasEdgeNames, new_under, gone_under, updated_under,
}
use yurt_device_controller.Controllers.DeviceServiceSyncer.{
  DeviceServiceSyncer, service_contents, create_service_content, update_service_content,
  update_device_services,
}

module _ {W : Type 0} (ds : DeviceServiceSyncer W) where
  -- The resource that is created for a device service of the edge platform has, as its name there,
  -- the name of that service, although its own name is translated and prefixed: later rounds match
  -- the two.
  pub created_service_keeps_name :
      (go : GoText) (eds : EdgeXDeviceService)
      → get_edge_device_service_name
          (create_service_content ds (to_kube_device_service go eds))
          edgex_object_name
        ≡ eds.name
  unfolding get_edge_device_service_name create_service_content to_kube_device_service
  created_service_keeps_name go eds = ground (arith, eq_iff edgex_object_name edgex_object_name)

  -- The map that `getAllDeviceServices` makes of a list.
  abbrev pub by_edge_name : List DeviceService → Dict DeviceService
  by_edge_name = keyed_by_name (service_contents ds) []

  found_by_name :
      (edge kube : List DeviceService) (k : String)
      → let (redundant_edge, redundant_kube, synced) =
          find_differences (service_contents ds) (by_edge_name edge) (by_edge_name kube) in
        (lookup k redundant_edge
          ≡ new_under (service_contents ds) (by_edge_name kube) (by_edge_name edge) k none)
        × (lookup k redundant_kube
            ≡ gone_under (service_contents ds) (by_edge_name edge) (by_edge_name kube) k none)
        × (lookup k synced
            ≡ updated_under (service_contents ds) (by_edge_name kube) (by_edge_name edge) k none)
  found_by_name edge kube k =
      let c = service_contents ds in
      let es = keyed_by_name-HasEdgeNames c edge [] tt tt in
      let ks = keyed_by_name-HasEdgeNames c kube [] tt tt in
      find_differences_by_name c (by_edge_name edge) (by_edge_name kube) k es.0 es.1 ks.0 ks.1

  -- For any two lists of services, in the maps that `getAllDeviceServices` makes of them: a name that
  -- both platforms have is neither created nor deleted, and its status gets the times and the state
  -- of administration of the edge platform, while its metadata and its specification stay.
  pub matched_service_is_updated :
      (edge kube : List DeviceService) (k : String) (ed kd : DeviceService)
      → lookup k (by_edge_name edge) ≡ some ed
      → lookup k (by_edge_name kube) ≡ some kd
      → let (redundant_edge, redundant_kube, synced) =
          find_differences (service_contents ds) (by_edge_name edge) (by_edge_name kube) in
        (lookup k redundant_edge ≡ none)
        × (lookup k redundant_kube ≡ none)
        × (lookup k synced
            ≡ some (record kd {
              status = record (kd.status) {
                last_connected = ed.status.last_connected;
                last_reported = ed.status.last_reported;
                admin_state = ed.status.admin_state;
              };
            }))
  unfolding update_service_content
  matched_service_is_updated edge kube k ed kd there here =
      ground (arith, found_by_name edge kube k)

  -- In the same maps, a service of the cluster that is not synced is not deleted, whatever the edge
  -- platform has.
  pub unsynced_service_stays :
      (edge kube : List DeviceService) (k : String) (kd : DeviceService)
      → lookup k (by_edge_name kube) ≡ some kd
      → kd.status.synced ≡ false
      → let (redundant_edge, redundant_kube, synced) =
          find_differences (service_contents ds) (by_edge_name edge) (by_edge_name kube) in
        lookup k redundant_kube ≡ none
  unsynced_service_stays edge kube k kd here unsynced = ground (arith, found_by_name edge kube k)

  -- The updates of a round never fail because of a conflict.
  update_device_services-error :
      (m : Dict DeviceService) (w : W) {e : Error}
      → (update_device_services ds m w).0 ≡ error e
      → is_conflict e ≡ false
  unfolding update_device_services
  update_device_services-error [] w h = cc
  update_device_services-error ((k, d) ∷ rest) w {e} h =
      let (r, w') = ds.client.update_status d w in
      ground (
        arith,
        update_device_services-error rest w {e = e},
        update_device_services-error rest w' {e = e},
      )
