-- ===== src/Controllers/Differences.antt =====
-- The comparison of both platforms that pkg/controllers/deviceservice_syncer.go and
-- deviceprofile_syncer.go make in the same way (`findDiffDeviceServices`, `findDiffDeviceProfiles`),
-- and their loops over what it finds. A syncer gives the name of an object on the edge platform, the
-- content of a new and of an updated resource, and the test whether a resource is synced.
pub mod Laws
pub mod Rounds
pub mod Lists
pub mod Agreement
use yurt_device_controller.Prelude.{String, Bool, List, [], ◌∷◌, none, some, if◌then◌else◌}
use yurt_device_controller.Prelude.Dict.{Dict, lookup, insert, contains}
use yurt_device_controller.Prelude.Io.{Result, value, error, is_already_exists}
use yurt_device_controller.Controllers.Kube.{KubeClient}

pub record Contents (T : Type 0) : Type 0 where
  pub edge_name : T → String
  pub create_content : T → T
  pub update_content : T → T → T
  pub is_synced : T → Bool

module _ {T : Type 0} (c : Contents T) where
  -- The loops that fill a map from the name to the object.
  unfoldable pub keyed_by_name : Dict T → List T → Dict T
  keyed_by_name m [] = m
  keyed_by_name m (x ∷ xs) = keyed_by_name (insert (c.edge_name x) x m) xs

  -- The body of the loop over the objects of the edge platform: those to create and those to update.
  unfoldable pub visit_edge_object : Dict T → T → Dict T × Dict T → Dict T × Dict T
  visit_edge_object kube x (redundant, synced) = elim (lookup (c.edge_name x) kube) [
    | none ↦ (insert (c.edge_name x) (c.create_content x) redundant, synced)
    | some k ↦ (redundant, insert (c.edge_name x) (c.update_content k x) synced)
  ]

  unfoldable pub walk_edge_objects : Dict T → Dict T → Dict T × Dict T → Dict T × Dict T
  unfolding visit_edge_object
  walk_edge_objects kube [] found = found
  walk_edge_objects kube ((i, x) ∷ xs) found =
      walk_edge_objects kube xs (visit_edge_object kube x found)

  -- The loop over the resources of the cluster: those to delete.
  unfoldable pub walk_kube_objects : Dict T → Dict T → Dict T → Dict T
  walk_kube_objects edge [] redundant = redundant
  walk_kube_objects edge ((i, k) ∷ ks) redundant = walk_kube_objects edge ks (
      if c.is_synced k
      then (if contains (c.edge_name k) edge then redundant else insert (c.edge_name k) k redundant)
      else redundant)

  -- The objects to create, to delete and to update.
  unfoldable pub find_differences : Dict T → Dict T → Dict T × Dict T × Dict T
  unfolding walk_edge_objects walk_kube_objects
  find_differences edge kube =
      let found = walk_edge_objects kube edge ([], []) in
      (found.0, walk_kube_objects edge kube [], found.1)

module _ {W T : Type 0} (client : KubeClient W T) where
  -- The loop of `syncEdgeToKube`: a resource that is there already is passed over.
  unfoldable pub create_objects : Dict T → W → Result (Unit {0}) × W
  create_objects [] w = (value tt, w)
  create_objects ((k, x) ∷ xs) w =
      let (r, w') = client.create x w in
      let rest = create_objects xs w' in
      elim r [ value _ ↦ rest | error e ↦ if is_already_exists e then rest else (error e, w') ]

  -- The loop of `deleteDeviceServices` and `deleteDeviceProfiles`.
  unfoldable pub delete_objects : Dict T → W → Result (Unit {0}) × W
  delete_objects [] w = (value tt, w)
  delete_objects ((k, x) ∷ xs) w =
      let (r, w') = client.delete x w in
      let rest = delete_objects xs w' in elim r [ value _ ↦ rest | error e ↦ (error e, w') ]
