-- ===== src/Controllers/Differences/Lists.antt =====
-- The same for the maps that are made of the two lists that a round reads.
use yurt_device_controller.Prelude.{
  String, ◌≡◌, ◌∙◌, arith, eq_iff, List, [], ◌∷◌, map, some, true, Option, is_some,
}
use yurt_device_controller.Prelude.Dict.{Dict, lookup, insert}
use yurt_device_controller.Prelude.Io.{value}
use yurt_device_controller.Controllers.Kube.{KubeClient}
use yurt_device_controller.Controllers.Differences.{
  Contents, keyed_by_name, find_differences, create_objects, delete_objects,
}
use yurt_device_controller.Controllers.Differences.Laws.{HasEdgeNames, keyed_by_name-HasEdgeNames}
use yurt_device_controller.Controllers.Differences.Rounds.{
  AllEntries, Steady, IsCreatable, kube_names, wanted, differences_applied,
}

-- A property of all items of a list.
abbrev pub AllItems : {T : Type 0} → (T → Type 0) → List T → Type 0
AllItems P [] = Unit
AllItems P (x ∷ xs) = P x × AllItems P xs

pub map-AllItems :
    {S T : Type 0} (P : T → Type 0) (f : S → T) (l : List S)
    → ((x : S) → P (f x))
    → AllItems P (map f l)
map-AllItems P f [] h = tt
map-AllItems P f (x ∷ l) h = (h x, map-AllItems P f l h)

module _ {T : Type 0} (c : Contents T) (P : T → Type 0) where
  insert-AllEntries :
      (k : String) (x : T) (m : Dict T)
      → P x
      → AllEntries (λ j y. P y) m
      → AllEntries (λ j y. P y) (insert k x m)
  insert-AllEntries k x [] p h = (p, tt)
  insert-AllEntries k x ((j, y) ∷ m) p h = ground (arith, insert-AllEntries k x m p h.1)

  keyed_by_name-AllEntries :
      (l : List T) (m : Dict T)
      → AllItems P l
      → AllEntries (λ j y. P y) m
      → AllEntries (λ j y. P y) (keyed_by_name c m l)
  unfolding keyed_by_name
  keyed_by_name-AllEntries [] m hl h = h
  keyed_by_name-AllEntries (x ∷ l) m hl h =
      keyed_by_name-AllEntries l (insert (c.edge_name x) x m) hl.1
        (insert-AllEntries (c.edge_name x) x m hl.0 h)

  -- What is found under a name has the property, and that name.
  found_entry :
      (m : Dict T) (k : String) (x : T)
      → HasEdgeNames c m
      → AllEntries (λ j y. P y) m
      → lookup k m ≡ some x
      → P x × (c.edge_name x ≡ k)
  found_entry [] k x named h found = cc
  found_entry ((j, y) ∷ m) k x named h found =
      ground (arith, eq_iff k j, found_entry m k x named.1 h.1)

module _ {W T : Type 0} (c : Contents T) (client : KubeClient W T) (kube_name : T → String)
    (stands : W → String → Option String)
    (steady : Steady client c.edge_name kube_name stands) where
  -- Where creation keeps the names of the listed objects, the new resources can be created, and the
  -- cluster's list is what it has, the two loops leave the wanted names.
  pub lists_applied :
      (edge kube : List T) (w : W)
      → AllItems (λ x. c.edge_name (c.create_content x) ≡ c.edge_name x) edge
      → let es = keyed_by_name c [] edge in
        let ks = keyed_by_name c [] kube in
        let (redundant_edge, redundant_kube, synced) = find_differences c es ks in
        IsCreatable (λ x. kube_name (c.create_content x)) (steady.refuses w) es ks
        → steady.single w ≡ true
        → ((k : String) → stands w k ≡ kube_names kube_name ks k)
        → (w₁ : W) × (w₂ : W) × (create_objects client redundant_edge w ≡ (value tt, w₁))
          × (delete_objects client redundant_kube w₁ ≡ (value tt, w₂))
          × ((k : String) → is_some (stands w₂ k) ≡ wanted c.is_synced es ks k)
  lists_applied edge kube w kept creatable single seen =
      let P = λ (x : T). c.edge_name (c.create_content x) ≡ c.edge_name x in
      let (ne, de) = keyed_by_name-HasEdgeNames c edge [] tt tt in
      let (nk, dk) = keyed_by_name-HasEdgeNames c kube [] tt tt in
      let all = keyed_by_name-AllEntries c P edge [] kept tt in
      differences_applied c client kube_name stands steady (keyed_by_name c [] edge)
        (keyed_by_name c [] kube) w ne de nk dk
        (λ k x found.
          let (p, q) = found_entry c P (keyed_by_name c [] edge) k x ne all found in p ∙ q)
        creatable single seen
