-- ===== src/Controllers/DeviceSyncer/Equivalence.antt =====
-- The syncer of devices has its own copy of the comparison and of the loops after it. They do what those
-- of the other two syncers do.
use yurt_device_controller.Prelude.{◌≡◌, ◌∙◌, ap, refl, arith, List, [], ◌∷◌}
use yurt_device_controller.Prelude.Dict.{Dict, insert}
use yurt_device_controller.Api.{Device}
use yurt_device_controller.Controllers.Differences.{
  Contents, keyed_by_name, visit_edge_object, walk_edge_objects, walk_kube_objects,
  find_differences, create_objects, delete_objects,
}
use yurt_device_controller.Controllers.DeviceSyncer.{
  DeviceSyncer, actual_name, by_name, complete_create_content, visit_edge, walk_edge, walk_kube,
  find_diff_device, sync_edge_to_kube, created_or_there, delete_devices, Found,
}

module _ {W : Type 0} (ds : DeviceSyncer W) where
  -- The content of a resource that is created. An update also asks the edge platform, so that it is no
  -- function of the two devices: it is left out.
  abbrev pub device_contents : Contents Device
  device_contents = record {
    edge_name = actual_name;
    create_content = complete_create_content ds;
    update_content = λ kd ed. kd;
    is_synced = λ d. d.status.synced;
  }

  pub by_name-keyed_by_name :
      (l : List Device) (m : Dict Device) → by_name m l ≡ keyed_by_name device_contents m l
  unfolding by_name keyed_by_name
  by_name-keyed_by_name [] m = refl
  by_name-keyed_by_name (d ∷ l) m = by_name-keyed_by_name l (insert (actual_name d) d m)

  visit_edge-visit_edge_object :
      (kube : Dict Device) (ed : Device) (red synced synced' : Dict Device) (w : W)
      → (visit_edge ds kube ed (red, synced) w).0.0
        ≡ (visit_edge_object device_contents kube ed (red, synced')).0
  unfolding visit_edge visit_edge_object
  visit_edge-visit_edge_object kube ed red synced synced' w = ground arith

  walk_edge-walk_edge_objects :
      (kube es : Dict Device) (f : Found ds) (g : Dict Device × Dict Device) (w : W)
      → f.0 ≡ g.0
      → (walk_edge ds kube es f w).0.0 ≡ (walk_edge_objects device_contents kube es g).0
  unfolding walk_edge walk_edge_objects
  walk_edge-walk_edge_objects kube [] f g w e = e
  walk_edge-walk_edge_objects kube ((i, ed) ∷ es) (red, s) (red', s') w e =
      let (f', w') = visit_edge ds kube ed (red, s) w in
      let g' = visit_edge_object device_contents kube ed (red', s') in
      walk_edge-walk_edge_objects kube es f' g' w' (
        visit_edge-visit_edge_object kube ed red s s' w
        ∙ ap (λ r. (visit_edge_object device_contents kube ed (r, s')).0) e)

  walk_kube-walk_kube_objects :
      (edge ks red : Dict Device)
      → walk_kube ds edge ks red ≡ walk_kube_objects device_contents edge ks red
  unfolding walk_kube walk_kube_objects
  walk_kube-walk_kube_objects edge [] red = refl
  walk_kube-walk_kube_objects edge ((i, kd) ∷ ks) red = walk_kube-walk_kube_objects edge ks _

  sync_edge_to_kube-create_objects :
      (m : Dict Device) (w : W) → sync_edge_to_kube ds m w ≡ create_objects ds.client m w
  unfolding sync_edge_to_kube create_objects created_or_there
  sync_edge_to_kube-create_objects [] w = refl
  sync_edge_to_kube-create_objects ((k, d) ∷ m) w =
      ground (arith, sync_edge_to_kube-create_objects m (ds.client.create d w).1)

  delete_devices-delete_objects :
      (m : Dict Device) (w : W) → delete_devices ds m w ≡ delete_objects ds.client m w
  unfolding delete_devices delete_objects
  delete_devices-delete_objects [] w = refl
  delete_devices-delete_objects ((k, d) ∷ m) w =
      ground (arith, delete_devices-delete_objects m (ds.client.delete d w).1)

  -- The maps that the syncer of devices makes of a list, the devices it picks for creation and for
  -- deletion, and its two loops over them are those of the comparison that the syncers of device
  -- services and of profiles share, whatever the edge platform answers in between.
  pub device_syncer_is_generic :
      (l : List Device) (edge kube m : Dict Device) (w : W)
      → let (redundant_edge, redundant_kube, synced) = (find_diff_device ds edge kube w).0 in
        let generic = find_differences device_contents edge kube in
        (by_name [] l ≡ keyed_by_name device_contents [] l)
        × (redundant_edge ≡ generic.0)
        × (redundant_kube ≡ generic.1)
        × (sync_edge_to_kube ds m w ≡ create_objects ds.client m w)
        × (delete_devices ds m w ≡ delete_objects ds.client m w)
  unfolding find_diff_device find_differences
  device_syncer_is_generic l edge kube m w = (
    by_name-keyed_by_name l [],
    walk_edge-walk_edge_objects kube edge ([], []) ([], []) w refl,
    walk_kube-walk_kube_objects edge kube [],
    sync_edge_to_kube-create_objects m w,
    delete_devices-delete_objects m w,
  )
