-- ===== src/Controllers/DeviceSyncer/Convergence.antt =====
-- What an undisturbed round of the synchronization of devices comes to.
use yurt_device_controller.Prelude.{
  String, ◌≡◌, ◌∙◌, sym, ap, arith, List, [], ◌∷◌, refl, eq_iff, subst, true, none, some, Option,
  is_some,
}
use yurt_device_controller.Prelude.Dict.{Dict, lookup}
use yurt_device_controller.Prelude.Io.{ok, value}
use yurt_device_controller.Api.{Device}
use yurt_device_controller.EdgeX.Dto.{EdgeXDevice}
use yurt_device_controller.EdgeX.Names.{GoText, edgex_object_name, get_edge_device_name}
use yurt_device_controller.EdgeX.Devices.{to_kube_device}
use yurt_device_controller.Controllers.Differences.{keyed_by_name}
use yurt_device_controller.Controllers.Differences.Rounds.{Steady, IsCreatable, kube_names, wanted}
use yurt_device_controller.Controllers.Differences.Lists.{AllItems, lists_applied}
use yurt_device_controller.Controllers.DeviceSyncer.{
  DeviceSyncer, actual_name, by_name, complete_create_content, complete_update_content, visit_edge,
  walk_edge, find_diff_device, update_devices, get_all_devices, apply_diff, sync_round, Found,
  sync_edge_to_kube, delete_devices,
}
use yurt_device_controller.Controllers.DeviceSyncer.Equivalence.{
  device_contents, by_name-keyed_by_name, device_syncer_is_generic,
}

-- A device that the client of the edge platform made of one there.
abbrev pub IsTranslated : GoText → Device → Type 0
IsTranslated go d = (ed : EdgeXDevice) × (to_kube_device go ed ≡ ok d)

abbrev pub kube_name : Device → String
kube_name d = d.metadata.name

listed_device_keeps_name :
    {W : Type 0} (ds : DeviceSyncer W) (go : GoText) (d : Device) (ed : EdgeXDevice)
    → to_kube_device go ed ≡ ok d
    → actual_name (complete_create_content ds d) ≡ actual_name d
unfolding get_edge_device_name complete_create_content to_kube_device
listed_device_keeps_name ds go d ed made =
    ground (arith, eq_iff edgex_object_name edgex_object_name)

module _ {W : Type 0} (ds : DeviceSyncer W) (stands : W → String → Option String)
    (steady : Steady ds.client actual_name kube_name stands) where
  -- Nothing has changed in the cluster.
  pub record IsSame (w w' : W) : Type 0 where
    pub stood : (k : String) → stands w' k ≡ stands w k
    pub refused : (n : String) → steady.refuses w' n ≡ steady.refuses w n
    pub single : steady.single w' ≡ steady.single w

module _ {W : Type 0} (ds : DeviceSyncer W) (stands : W → String → Option String)
    (steady : Steady ds.client actual_name kube_name stands)
    (quiet : (d : Device) (w : W)
      → IsSame ds stands steady w (ds.device_cli.list_properties_state d w).1) where
  abbrev Kept : W → W → Type 0
  Kept = IsSame ds stands steady

  Kept-refl : (w : W) → Kept w w
  Kept-refl w = record { stood = λ k. refl; refused = λ n. refl; single = refl }

  Kept-trans : {w w₁ w₂ : W} → Kept w₁ w₂ → Kept w w₁ → Kept w w₂
  Kept-trans h h' = record {
    stood = λ k. h.stood k ∙ h'.stood k;
    refused = λ n. h.refused n ∙ h'.refused n;
    single = h.single ∙ h'.single;
  }

  IsCreatable-Kept :
      {edge kube : Dict Device} {w w' : W}
      → IsCreatable (λ d. kube_name (complete_create_content ds d)) (steady.refuses w) edge kube
      → Kept w w'
      → IsCreatable (λ d. kube_name (complete_create_content ds d)) (steady.refuses w') edge kube
  IsCreatable-Kept h kept = record {
    free = λ k x there away.
        kept.refused (kube_name (complete_create_content ds x)) ∙ h.free k x there away;
    apart = h.apart;
  }

  update_devices-stands :
      (m : Dict Device) (w : W) (k : String) → stands (update_devices ds m w).1 k ≡ stands w k
  unfolding update_devices
  update_devices-stands [] w k = refl
  update_devices-stands ((j, d) ∷ m) w k =
      let w' = (ds.client.update_status d w).1 in
      ground (arith, steady.updates d w k, update_devices-stands m w' k)

  visit_edge-Kept :
      (kube : Dict Device) (ed : Device) (found : Found ds) (w : W)
      → Kept w (visit_edge ds kube ed found w).1
  unfolding visit_edge complete_update_content
  visit_edge-Kept kube ed found w = go (lookup (actual_name ed) kube) refl
    where
      go :
          (o : Option Device)
          → lookup (actual_name ed) kube ≡ o
          → Kept w (visit_edge ds kube ed found w).1
      go none missing = rw (missing, visit_edge) (Kept-refl w)
      go (some kd) there = rw (there, visit_edge) (quiet kd w)

  walk_edge-Kept :
      (kube es : Dict Device) (found : Found ds) (w : W) → Kept w (walk_edge ds kube es found w).1
  unfolding walk_edge
  walk_edge-Kept kube [] found w = Kept-refl w
  walk_edge-Kept kube ((i, ed) ∷ es) found w =
      let (found', w') = visit_edge ds kube ed found w in
      Kept-trans (walk_edge-Kept kube es found' w') (visit_edge-Kept kube ed found w)

  find_diff_device-Kept :
      (edge kube : Dict Device) (w : W) → Kept w (find_diff_device ds edge kube w).1
  unfolding find_diff_device
  find_diff_device-Kept edge kube w = walk_edge-Kept kube edge ([], []) w

  translated_keep_names :
      (go : GoText) (l : List Device)
      → AllItems (IsTranslated go) l
      → AllItems (λ d. actual_name (complete_create_content ds d) ≡ actual_name d) l
  translated_keep_names go [] h = tt
  translated_keep_names go (d ∷ l) ((ed, made), h) =
      (listed_device_keeps_name ds go d ed made, translated_keep_names go l h)

  -- The steps after the comparison.
  apply_diff-stands :
      (go : GoText) (edge kube : List Device) (w : W)
      → AllItems (IsTranslated go) edge
      → IsCreatable
          (λ d. kube_name (complete_create_content ds d))
          (steady.refuses w)
          (by_name [] edge)
          (by_name [] kube)
      → steady.single w ≡ true
      → ((k : String) → stands w k ≡ kube_names kube_name (by_name [] kube) k)
      → let (diff, w') = find_diff_device ds (by_name [] edge) (by_name [] kube) w in
        (k : String)
        → is_some (stands (apply_diff ds diff w') k)
          ≡ wanted (λ d. d.status.synced) (by_name [] edge) (by_name [] kube) k
  unfolding apply_diff
  apply_diff-stands go edge kube w made creatable single seen k =
      let c = device_contents ds in
      let (diff, w') = find_diff_device ds (by_name [] edge) (by_name [] kube) w in
      let same = device_syncer_is_generic ds edge (by_name [] edge) (by_name [] kube) in
      let a = by_name-keyed_by_name ds edge [] in
      let b = by_name-keyed_by_name ds kube [] in
      let kept = find_diff_device-Kept (by_name [] edge) (by_name [] kube) w in
      let creatable' =
        subst
          (λ es.
            IsCreatable (λ d. kube_name (complete_create_content ds d)) (steady.refuses w') es
              (keyed_by_name c [] kube))
          a
          (subst
            (λ ks.
              IsCreatable (λ d. kube_name (complete_create_content ds d)) (steady.refuses w')
                (by_name [] edge) ks)
            b (IsCreatable-Kept creatable kept)) in
      let (w₁, w₂, e, e', after) =
        lists_applied c ds.client kube_name stands steady edge kube w'
          (translated_keep_names go edge made) creatable' (kept.single ∙ single)
          (λ j. kept.stood j ∙ seen j ∙ ap (λ ks. kube_names kube_name ks j) b) in
      let created : (sync_edge_to_kube ds diff.0 w').1 ≡ w₁ =
        cc (a, b, (same [] w).1, (same diff.0 w').3, e) in
      let deleted : (delete_devices ds diff.1 w₁).1 ≡ w₂ =
        cc (a, b, (same [] w).2, (same diff.1 w₁).4, e') in
      ap is_some (
        update_devices-stands diff.2 (delete_devices ds diff.1 (sync_edge_to_kube ds diff.0 w').1).1
          k)
      ∙ ap (λ v. is_some (stands (delete_devices ds diff.1 v).1 k)) created
      ∙ ap (λ v. is_some (stands v k)) deleted
      ∙ after k
      ∙ sym (
          ap (λ es. wanted c.is_synced es (by_name [] kube) k) a
          ∙ ap (λ ks. wanted c.is_synced (keyed_by_name c [] edge) ks k) b)

  -- A round that can list both platforms, whose cluster is steady, has what it lists and has no two
  -- resources for one name on the edge platform, and where reading properties on the edge platform
  -- changes nothing in the cluster, returns, provided that the resources to be made get names in
  -- Kubernetes that are free, valid and different. The cluster then has a resource for a name exactly
  -- if the edge platform has a device of that name, or the cluster had one that is not synced. The
  -- devices of the edge platform are ones that can be translated.
  pub device_round_converges :
      (go : GoText) (edge kube : List Device) (w w₁ w₂ : W)
      → AllItems (IsTranslated go) edge
      → ds.device_cli.list w ≡ (ok edge, w₁)
      → ds.client.list ds.node_pool ds.namespace w₁ ≡ (value kube, w₂)
      → IsCreatable
          (λ d. kube_name (complete_create_content ds d))
          (steady.refuses w₂)
          (by_name [] edge)
          (by_name [] kube)
      → steady.single w₂ ≡ true
      → ((k : String) → stands w₂ k ≡ kube_names kube_name (by_name [] kube) k)
      → (w₃ : W) × (sync_round ds w ≡ (ok tt, w₃))
        × ((k : String)
            → is_some (stands w₃ k)
              ≡ wanted (λ d. d.status.synced) (by_name [] edge) (by_name [] kube) k)
  unfolding sync_round get_all_devices
  device_round_converges go edge kube w w₁ w₂ made listed listed' creatable single seen =
      let (diff, w') = find_diff_device ds (by_name [] edge) (by_name [] kube) w₂ in
      (
        apply_diff ds diff w',
        ground arith,
        apply_diff-stands go edge kube w₂ made creatable single seen,
      )
