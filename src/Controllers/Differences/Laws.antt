-- ===== src/Controllers/Differences/Laws.antt =====
-- Which objects the comparison picks, whatever the order in which it visits the maps.
use yurt_device_controller.Prelude.{
  Option-cases, inl, inr, String, ◌≡◌, refl, arith, eq_iff, List, [], ◌∷◌, Option, none, some,
  false, if◌then◌else◌, ◌==◌,
}
use yurt_device_controller.Prelude.Dict.{
  Dict, lookup, insert, contains, NodupKeys, lookup-insert, insert-NodupKeys,
}
use yurt_device_controller.Prelude.Io.{error, is_already_exists, Error}
use yurt_device_controller.Controllers.Kube.{KubeClient}
use yurt_device_controller.Controllers.Differences.{
  Contents, keyed_by_name, visit_edge_object, walk_edge_objects, walk_kube_objects,
  find_differences, create_objects,
}

module _ {T : Type 0} (c : Contents T) where
  -- Every object stands under its name on the edge platform.
  abbrev pub HasEdgeNames : Dict T → Type 0
  HasEdgeNames [] = Unit
  HasEdgeNames ((i, x) ∷ m) = (c.edge_name x ≡ i) × HasEdgeNames m

  pub insert-HasEdgeNames :
      (x : T) (m : Dict T) → HasEdgeNames m → HasEdgeNames (insert (c.edge_name x) x m)
  insert-HasEdgeNames x [] h = (refl, tt)
  insert-HasEdgeNames x ((i, e) ∷ m) h = ground (arith, insert-HasEdgeNames x m h.1)

  pub keyed_by_name-HasEdgeNames :
      (l : List T) (m : Dict T)
      → HasEdgeNames m
      → NodupKeys m
      → HasEdgeNames (keyed_by_name c m l) × NodupKeys (keyed_by_name c m l)
  unfolding keyed_by_name
  keyed_by_name-HasEdgeNames [] m named distinct = (named, distinct)
  keyed_by_name-HasEdgeNames (x ∷ l) m named distinct =
      keyed_by_name-HasEdgeNames l (insert (c.edge_name x) x m) (insert-HasEdgeNames x m named)
        (insert-NodupKeys (c.edge_name x) x m distinct)

  -- What the loops leave under a key, from what was there before.
  abbrev pub new_under : Dict T → Dict T → String → Option T → Option T
  new_under kube es k old = elim (lookup k es) [
    | none ↦ old
    | some x ↦ if contains k kube then old else some (c.create_content x)
  ]

  abbrev pub updated_under : Dict T → Dict T → String → Option T → Option T
  updated_under kube es k old = elim (lookup k es) [
    | none ↦ old
    | some x ↦ elim (lookup k kube) [ none ↦ old | some y ↦ some (c.update_content y x) ]
  ]

  abbrev pub gone_under : Dict T → Dict T → String → Option T → Option T
  gone_under edge ks k old = elim (lookup k ks) [
    | none ↦ old
    | some x ↦ if c.is_synced x then (if contains k edge then old else some x) else old
  ]

  visit_edge_object_lem :
      (kube : Dict T) (x : T) (found : Dict T × Dict T) (k i : String)
      → c.edge_name x ≡ i
      → (lookup k (visit_edge_object c kube x found).0 ≡ (
          if k == i then new_under kube ((i, x) ∷ []) k (lookup k found.0) else lookup k found.0))
        × (lookup k (visit_edge_object c kube x found).1 ≡ (
            if k == i
            then updated_under kube ((i, x) ∷ []) k (lookup k found.1)
            else lookup k found.1))
  unfolding visit_edge_object
  visit_edge_object_lem kube x found k i named = elim (Option-cases (lookup i kube)) [
    | inl missing ↦ ground (arith, eq_iff k i, lookup-insert k i (c.create_content x) found.0)
    | inr (y, there) ↦ ground (arith, eq_iff k i, lookup-insert k i (c.update_content y x) found.1)
  ]

  walk_edge_objects_lem :
      (kube es : Dict T) (found : Dict T × Dict T) (k : String)
      → HasEdgeNames es
      → NodupKeys es
      → (lookup k (walk_edge_objects c kube es found).0 ≡ new_under kube es k (lookup k found.0))
        × (lookup k (walk_edge_objects c kube es found).1
            ≡ updated_under kube es k (lookup k found.1))
  unfolding walk_edge_objects
  walk_edge_objects_lem kube [] found k named distinct = (refl, refl)
  walk_edge_objects_lem kube ((i, x) ∷ es) found k named distinct =
      let found' = visit_edge_object c kube x found in
      ground (
        arith,
        eq_iff k i,
        visit_edge_object_lem kube x found k i named.0,
        walk_edge_objects_lem kube es found' k named.1 distinct.1,
      )

  walk_kube_objects_lem :
      (edge ks : Dict T) (red : Dict T) (k : String)
      → HasEdgeNames ks
      → NodupKeys ks
      → lookup k (walk_kube_objects c edge ks red) ≡ gone_under edge ks k (lookup k red)
  unfolding walk_kube_objects
  walk_kube_objects_lem edge [] red k named distinct = refl
  walk_kube_objects_lem edge ((i, x) ∷ ks) red k named distinct = ground (
    arith,
    eq_iff k i,
    lookup-insert k i x red,
    walk_kube_objects_lem edge ks red k named.1 distinct.1,
    walk_kube_objects_lem edge ks (insert i x red) k named.1 distinct.1,
  )

  -- For maps keyed by the names on the edge platform, each name once, and in whatever order they are
  -- visited, the entry of a name among the differences: it is to be created exactly if only the edge
  -- platform has it, to be deleted exactly if only the cluster has it and its resource is synced, and
  -- to be updated, by the content made of both objects, exactly if both have it.
  pub find_differences_by_name :
      (edge kube : Dict T) (k : String)
      → HasEdgeNames edge
      → NodupKeys edge
      → HasEdgeNames kube
      → NodupKeys kube
      → let (redundant_edge, redundant_kube, synced) = find_differences c edge kube in
        (lookup k redundant_edge ≡ new_under kube edge k none)
        × (lookup k redundant_kube ≡ gone_under edge kube k none)
        × (lookup k synced ≡ updated_under kube edge k none)
  unfolding find_differences
  find_differences_by_name edge kube k named distinct named' distinct' =
      let walked = walk_edge_objects_lem kube edge ([], []) k named distinct in
      (walked.0, walk_kube_objects_lem edge kube [] k named' distinct', walked.1)

module _ {W T : Type 0} (client : KubeClient W T) where
  -- The creation of resources never fails because one of them is there already.
  create_objects-error :
      (m : Dict T) (w : W) {e : Error}
      → (create_objects client m w).0 ≡ error e
      → is_already_exists e ≡ false
  unfolding create_objects
  create_objects-error [] w h = cc
  create_objects-error ((k, x) ∷ xs) w {e} h =
      let (r, w') = client.create x w in ground (arith, create_objects-error xs w' {e = e})
