-- ===== src/Controllers/DeviceSyncer/Worlds.antt =====
-- What a round leaves as it is, from what its calls do.
use yurt_device_controller.Prelude.{String, ◌≡◌, arith, Bool, [], ◌∷◌, Option-cases, inl, inr}
use yurt_device_controller.Prelude.Dict.{Dict, lookup}
use yurt_device_controller.Api.{Device}
use yurt_device_controller.Controllers.DeviceSyncer.{
  DeviceSyncer, Found, actual_name, complete_update_content, visit_edge, walk_edge,
  find_diff_device, sync_edge_to_kube, created_or_there, delete_devices, update_devices, apply_diff,
  get_all_devices, sync_round,
}

-- The calls of the syncer keep an observation of the world at a value.
pub record CallsKeep {W : Type 0} (ds : DeviceSyncer W) (observe : W → Bool) (b : Bool)
    : Type 0 where
  pub lists_edge : (w : W) → observe w ≡ b → observe (ds.device_cli.list w).1 ≡ b
  pub lists_kube :
      (pool namespace : String) (w : W)
      → observe w ≡ b
      → observe (ds.client.list pool namespace w).1 ≡ b
  pub reads :
      (d : Device) (w : W) → observe w ≡ b → observe (ds.device_cli.list_properties_state d w).1 ≡ b
  pub creates : (d : Device) (w : W) → observe w ≡ b → observe (ds.client.create d w).1 ≡ b
  pub deletes : (d : Device) (w : W) → observe w ≡ b → observe (ds.client.delete d w).1 ≡ b
  pub updates : (d : Device) (w : W) → observe w ≡ b → observe (ds.client.update_status d w).1 ≡ b

module _ {W : Type 0} (ds : DeviceSyncer W) (observe : W → Bool) (b : Bool)
    (h : CallsKeep ds observe b) where
  create_loop : (m : Dict Device) (w : W) → observe w ≡ b → observe (sync_edge_to_kube ds m w).1 ≡ b
  unfolding sync_edge_to_kube created_or_there
  create_loop [] w p = p
  create_loop ((k, d) ∷ m) w p =
      let w' = (ds.client.create d w).1 in
      let p' = h.creates d w p in ground (arith, p', create_loop m w' p')

  delete_loop : (m : Dict Device) (w : W) → observe w ≡ b → observe (delete_devices ds m w).1 ≡ b
  unfolding delete_devices
  delete_loop [] w p = p
  delete_loop ((k, d) ∷ m) w p =
      let w' = (ds.client.delete d w).1 in
      let p' = h.deletes d w p in ground (arith, p', delete_loop m w' p')

  update_loop : (m : Dict Device) (w : W) → observe w ≡ b → observe (update_devices ds m w).1 ≡ b
  unfolding update_devices
  update_loop [] w p = p
  update_loop ((k, d) ∷ m) w p =
      let w' = (ds.client.update_status d w).1 in
      let p' = h.updates d w p in ground (arith, p', update_loop m w' p')

  visit :
      (kube : Dict Device) (ed : Device) (found : Found ds) (w : W)
      → observe w ≡ b
      → observe (visit_edge ds kube ed found w).1 ≡ b
  unfolding visit_edge complete_update_content
  visit kube ed found w p = elim (Option-cases (lookup (actual_name ed) kube)) [
    | inl missing ↦ ground (arith, p)
    | inr (kd, there) ↦ ground (arith, h.reads kd w p)
  ]

  walk_loop :
      (kube es : Dict Device) (found : Found ds) (w : W)
      → observe w ≡ b
      → observe (walk_edge ds kube es found w).1 ≡ b
  unfolding walk_edge
  walk_loop kube [] found w p = p
  walk_loop kube ((i, ed) ∷ es) found w p =
      let (found', w') = visit_edge ds kube ed found w in
      walk_loop kube es found' w' (visit kube ed found w p)

  after_lists :
      (edge kube : Dict Device) (w : W)
      → observe w ≡ b
      → let (diff, w') = find_diff_device ds edge kube w in observe (apply_diff ds diff w') ≡ b
  unfolding find_diff_device apply_diff
  after_lists edge kube w p =
      update_loop _ _ (delete_loop _ _ (create_loop _ _ (walk_loop kube edge ([], []) w p)))

  -- So does a whole round.
  pub sync_round_keeps : (w : W) → observe w ≡ b → observe (sync_round ds w).1 ≡ b
  unfolding sync_round get_all_devices
  sync_round_keeps w p =
      let w₁ = (ds.device_cli.list w).1 in
      let p₁ = h.lists_edge w p in
      let w₂ = (ds.client.list ds.node_pool ds.namespace w₁).1 in
      let p₂ = h.lists_kube ds.node_pool ds.namespace w₁ p₁ in grind (arith, p₁, p₂, after_lists)
