-- ===== src/Controllers/DeviceSyncer/Diff.antt =====
-- Which devices `findDiffDevice` picks, whatever the order in which it visits the maps.
use yurt_device_controller.Prelude.{
  ◌∙◌, Option-cases, inl, inr, String, ◌≡◌, refl, arith, eq_iff, List, [], ◌∷◌, Option, none, some,
  Bool, true, ◌&&◌, if◌then◌else◌, ◌==◌,
}
use yurt_device_controller.Prelude.Dict.{
  Dict, lookup, insert, contains, NodupKeys, lookup-insert, insert-NodupKeys,
}
use yurt_device_controller.Api.{Device}
use yurt_device_controller.Controllers.DeviceSyncer.{
  DeviceSyncer, actual_name, by_name, complete_create_content, complete_update_content, visit_edge,
  walk_edge, walk_kube, find_diff_device, Found,
}

-- Every device stands under its name on the edge platform.
abbrev pub IsKeyed : Dict Device → Type 0
IsKeyed [] = Unit
IsKeyed ((i, d) ∷ m) = (actual_name d ≡ i) × IsKeyed m

insert-IsKeyed : (d : Device) (m : Dict Device) → IsKeyed m → IsKeyed (insert (actual_name d) d m)
insert-IsKeyed d [] h = (refl, tt)
insert-IsKeyed d ((i, e) ∷ m) h = ground (arith, insert-IsKeyed d m h.1)

-- The maps that `getAllDevices` makes of any two lists are keyed by name, each name once.
pub by_name-IsKeyed :
    (l : List Device) (m : Dict Device)
    → IsKeyed m
    → NodupKeys m
    → IsKeyed (by_name m l) × NodupKeys (by_name m l)
unfolding by_name
by_name-IsKeyed [] m keyed distinct = (keyed, distinct)
by_name-IsKeyed (d ∷ l) m keyed distinct =
    by_name-IsKeyed l (insert (actual_name d) d m) (insert-IsKeyed d m keyed)
      (insert-NodupKeys (actual_name d) d m distinct)

module _ {W : Type 0} (ds : DeviceSyncer W) where
  -- What the loop over the edge devices leaves under a key, from what was there before.
  abbrev to_create : Dict Device → Dict Device → String → Option Device → Option Device
  to_create kube es k old = elim (lookup k es) [
    | none ↦ old
    | some ed ↦ if contains k kube then old else some (complete_create_content ds ed)
  ]

  visit_edge-to_create :
      (kube : Dict Device) (ed : Device) (found : Found ds) (w : W) (k i : String)
      → actual_name ed ≡ i
      → lookup k (visit_edge ds kube ed found w).0.0
        ≡ (if k == i then to_create kube ((i, ed) ∷ []) k (lookup k found.0) else lookup k found.0)
  unfolding visit_edge
  visit_edge-to_create kube ed found w k i named =
      ground (arith, eq_iff k i, lookup-insert k i (complete_create_content ds ed) found.0)

  walk_edge-to_create :
      (kube es : Dict Device) (found : Found ds) (w : W) (k : String)
      → IsKeyed es
      → NodupKeys es
      → lookup k (walk_edge ds kube es found w).0.0 ≡ to_create kube es k (lookup k found.0)
  unfolding walk_edge
  walk_edge-to_create kube [] found w k keyed distinct = refl
  walk_edge-to_create kube ((i, ed) ∷ es) found w k keyed distinct =
      let (found', w') = visit_edge ds kube ed found w in
      ground (
        arith,
        eq_iff k i,
        visit_edge-to_create kube ed found w k i keyed.0,
        walk_edge-to_create kube es found' w' k keyed.1 distinct.1,
      )

  -- Whether a key has a device to update, from whether it had one before.
  abbrev to_update : Dict Device → Dict Device → String → Bool → Bool
  to_update kube es k old = if contains k es then (if contains k kube then true else old) else old

  visit_edge-to_update :
      (kube : Dict Device) (ed : Device) (found : Found ds) (w : W) (k i : String)
      → actual_name ed ≡ i
      → contains k (visit_edge ds kube ed found w).0.1 ≡ (
          if k == i
          then to_update kube ((i, ed) ∷ []) k (contains k found.1)
          else contains k found.1)
  unfolding visit_edge
  visit_edge-to_update kube ed found w k i named = elim (Option-cases (lookup i kube)) [
    | inl missing ↦ ground (arith, eq_iff k i)
    | inr (kd, there) ↦
        ground (arith, eq_iff k i, lookup-insert k i (complete_update_content ds kd ed w).0 found.1)
  ]

  walk_edge-to_update :
      (kube es : Dict Device) (found : Found ds) (w : W) (k : String)
      → IsKeyed es
      → NodupKeys es
      → contains k (walk_edge ds kube es found w).0.1 ≡ to_update kube es k (contains k found.1)
  unfolding walk_edge
  walk_edge-to_update kube [] found w k keyed distinct = refl
  walk_edge-to_update kube ((i, ed) ∷ es) found w k keyed distinct =
      let (found', w') = visit_edge ds kube ed found w in
      ground (
        arith,
        eq_iff k i,
        visit_edge-to_update kube ed found w k i keyed.0,
        walk_edge-to_update kube es found' w' k keyed.1 distinct.1,
      )

  -- The device to delete under a key, from what was there before.
  abbrev to_delete : Dict Device → Dict Device → String → Option Device → Option Device
  to_delete edge ks k old = elim (lookup k ks) [
    | none ↦ old
    | some kd ↦ if kd.status.synced then (if contains k edge then old else some kd) else old
  ]

  walk_kube-to_delete :
      (edge ks : Dict Device) (red : Dict Device) (k : String)
      → IsKeyed ks
      → NodupKeys ks
      → lookup k (walk_kube ds edge ks red) ≡ to_delete edge ks k (lookup k red)
  unfolding walk_kube
  walk_kube-to_delete edge [] red k keyed distinct = refl
  walk_kube-to_delete edge ((i, kd) ∷ ks) red k keyed distinct = ground (
    arith,
    eq_iff k i,
    lookup-insert k i kd red,
    walk_kube-to_delete edge ks red k keyed.1 distinct.1,
    walk_kube-to_delete edge ks (insert i kd red) k keyed.1 distinct.1,
  )

  -- For maps keyed by name, as `getAllDevices` makes them, and in whatever order they are visited:
  -- a name has a device to create, the completed one of the edge platform, exactly if only the edge
  -- platform has the name; it has a device to delete, that of the cluster, exactly if only the
  -- cluster has the name and its device is synced; it has a device to update exactly if both have it.
  pub find_diff_device_by_name :
      (edge kube : Dict Device) (w : W) (k : String)
      → IsKeyed edge
      → NodupKeys edge
      → IsKeyed kube
      → NodupKeys kube
      → let (redundant_edge, redundant_kube, synced) = (find_diff_device ds edge kube w).0 in
        (lookup k redundant_edge ≡ to_create kube edge k none)
        × (lookup k redundant_kube ≡ to_delete edge kube k none)
        × (contains k synced ≡ (contains k edge && contains k kube))
  unfolding find_diff_device
  find_diff_device_by_name edge kube w k keyed distinct keyed' distinct' = (
    walk_edge-to_create kube edge ([], []) w k keyed distinct,
    walk_kube-to_delete edge kube [] k keyed' distinct',
    walk_edge-to_update kube edge ([], []) w k keyed distinct ∙ ground arith,
  )
