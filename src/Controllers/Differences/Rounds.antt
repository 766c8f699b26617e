-- ===== src/Controllers/Differences/Rounds.antt =====
-- What a round of synchronization makes of the set of resources, seen as the names on the edge platform
-- that the cluster has a resource for.
use yurt_device_controller.Prelude.{
  String, Option-cases, inl, inr, ◌≡◌, ◌≢◌, refl, sym, ap, ◌∙◌, is_some, arith, eq_iff, Option, [],
  ◌∷◌, none, some, Bool, true, false, if◌then◌else◌, ◌==◌, ◌||◌, not,
}
use yurt_device_controller.Prelude.Dict.{
  Dict, lookup, insert, contains, NodupKeys, insert-NodupKeys,
}
use yurt_device_controller.Prelude.Io.{value}
use yurt_device_controller.Controllers.Kube.{KubeClient}
use yurt_device_controller.Controllers.Differences.{
  Contents, visit_edge_object, walk_edge_objects, walk_kube_objects, find_differences,
  create_objects, delete_objects,
}
use yurt_device_controller.Controllers.Differences.Laws.{
  HasEdgeNames, insert-HasEdgeNames, find_differences_by_name,
}

-- A property of the entries of a map.
abbrev pub AllEntries : {V : Type 0} → (String → V → Type 0) → Dict V → Type 0
AllEntries P [] = Unit
AllEntries P ((k, v) ∷ m) = P k v × AllEntries P m

module _ {V : Type 0} (P : String → V → Type 0) where
  pub lookup-AllEntries :
      (m : Dict V)
      → NodupKeys m
      → ((k : String) (v : V) → lookup k m ≡ some v → P k v)
      → AllEntries P m
  lookup-AllEntries [] distinct h = tt
  lookup-AllEntries ((j, v) ∷ m) distinct h = (
    h j v (ground (arith, eq_iff j j)),
    lookup-AllEntries m distinct.1 (λ k x found. h k x (ground (arith, eq_iff k j))),
  )

-- The names that a round leaves: those of the edge platform, and those of resources that are not
-- synced.
abbrev pub wanted : {T : Type 0} → (T → Bool) → Dict T → Dict T → String → Bool
wanted is_synced edge kube k =
    contains k edge || elim (lookup k kube) [ none ↦ false | some x ↦ not (is_synced x) ]

-- A cluster that is left alone and answers. `stands w k`: the name in Kubernetes of the resource, not
-- marked for deletion, that stands for the object with the name `k` on the edge platform.
-- A deletion is answered when the resource is marked, which then still waits for its finalizers.
pub record Steady {W T : Type 0} (client : KubeClient W T) (name kube_name : T → String)
    (stands : W → String → Option String) : Type 0 where
  -- The cluster takes no new resource of this name in Kubernetes: one has it, or it is none.
  pub refuses : W → String → Bool
  -- No two resources stand for one name.
  pub single : W → Bool
  pub creates :
      (x : T) (w : W)
      → single w ≡ true
      → stands w (name x) ≡ none
      → refuses w (kube_name x) ≡ false
      → (w' : W) × (client.create x w ≡ (value tt, w'))
        × ((k : String) → stands w' k ≡ (if k == name x then some (kube_name x) else stands w k))
        × ((n : String) → refuses w' n ≡ (if n == kube_name x then true else refuses w n))
        × (single w' ≡ true)
  pub deletes :
      (x : T) (w : W)
      → single w ≡ true
      → stands w (name x) ≡ some (kube_name x)
      → (w' : W) × (client.delete x w ≡ (value tt, w'))
        × ((k : String) → stands w' k ≡ (if k == name x then none else stands w k))
        × (single w' ≡ true)
  pub updates : (x : T) (w : W) (k : String) → stands (client.update_status x w).1 k ≡ stands w k

module _ {W T : Type 0} (client : KubeClient W T) (name kube_name : T → String)
    (stands : W → String → Option String) (steady : Steady client name kube_name stands) where
  abbrev pub Named : String → T → Type 0
  Named k x = name x ≡ k

  -- The resources have names in Kubernetes that the cluster takes, and different ones.
  abbrev pub IsFree : W → String → T → Type 0
  IsFree w k x = steady.refuses w (kube_name x) ≡ false

  abbrev pub AreApart : Dict T → Type 0
  AreApart [] = Unit
  AreApart ((i, x) ∷ m) = AllEntries (λ k y. kube_name y ≢ kube_name x) m × AreApart m

  still-IsFree :
      (m : Dict T) (x : T) (w w' : W)
      → ((n : String)
          → steady.refuses w' n ≡ (if n == kube_name x then true else steady.refuses w n))
      → AllEntries (λ k y. kube_name y ≢ kube_name x) m
      → AllEntries (IsFree w) m
      → AllEntries (IsFree w') m
  still-IsFree [] x w w' now apart free = tt
  still-IsFree ((i, y) ∷ m) x w w' now apart free = (
    ground (arith, now (kube_name y), apart.0, free.0, eq_iff (kube_name y) (kube_name x)),
    still-IsFree m x w w' now apart.1 free.1,
  )

  -- The creation loop ends without an error, and the created resources then stand for their names.
  pub create_objects_lem :
      (m : Dict T) (w : W)
      → NodupKeys m
      → AllEntries Named m
      → AllEntries (IsFree w) m
      → AreApart m
      → steady.single w ≡ true
      → ((k : String) → contains k m ≡ true → stands w k ≡ none)
      → (w' : W) × (create_objects client m w ≡ (value tt, w'))
        × ((k : String)
            → stands w' k ≡ elim (lookup k m) [ some x ↦ some (kube_name x) | none ↦ stands w k ])
        × (steady.single w' ≡ true)
  unfolding create_objects
  create_objects_lem [] w distinct named free apart single absent = (w, refl, λ k. refl, single)
  create_objects_lem ((i, x) ∷ m) w distinct named free apart single absent =
      let (w₁, e, now, taken, single₁) =
        steady.creates x w single (rw (named.0) (absent i (ground (arith, eq_iff i i)))) free.0 in
      let (w₂, e', after, single₂) =
        create_objects_lem m w₁ distinct.1 named.1 (still-IsFree m x w w₁ taken apart.0 free.1)
          apart.1 single₁ (λ k found. ground (arith, now k, absent k, eq_iff k i, named.0)) in
      (w₂, ground arith, λ k. ground (arith, now k, after k, eq_iff k i, named.0), single₂)

  pub lookup-AreApart :
      (m : Dict T)
      → NodupKeys m
      → ((k j : String) (x y : T)
          → lookup k m ≡ some x
          → lookup j m ≡ some y
          → k ≢ j
          → kube_name x ≢ kube_name y)
      → AreApart m
  lookup-AreApart [] distinct h = tt
  lookup-AreApart ((i, x) ∷ m) distinct h = (
    lookup-AllEntries (λ k y. kube_name y ≢ kube_name x) m distinct.1
        (λ k y found.
          let other : k ≢ i = λ e. ground (arith, distinct.0) in
          h k i y x (ground (arith, eq_iff k i)) (ground (arith, eq_iff i i)) other),
    lookup-AreApart m distinct.1 (λ k j y z found found'.
        h k j y z (ground (arith, eq_iff k i, distinct.0))
          (ground (arith, eq_iff j i, distinct.0))),
  )

  -- Of resources of which each stands for its name.
  abbrev pub IsStanding : W → String → T → Type 0
  IsStanding w k x = stands w k ≡ some (kube_name x)

  still-IsStanding :
      (m : Dict T) (i : String) (w w' : W)
      → ((k : String) → stands w' k ≡ (if k == i then none else stands w k))
      → lookup i m ≡ none
      → AllEntries (IsStanding w) m
      → AllEntries (IsStanding w') m
  still-IsStanding [] i w w' now away there = tt
  still-IsStanding ((j, y) ∷ m) i w w' now away there = (
    ground (arith, now j, there.0, eq_iff j i, eq_iff i j),
    still-IsStanding m i w w' now (ground (arith, eq_iff i j)) there.1,
  )

  pub delete_objects_lem :
      (m : Dict T) (w : W)
      → NodupKeys m
      → AllEntries Named m
      → AllEntries (IsStanding w) m
      → steady.single w ≡ true
      → (w' : W) × (delete_objects client m w ≡ (value tt, w'))
        × ((k : String) → stands w' k ≡ (if contains k m then none else stands w k))
  unfolding delete_objects
  delete_objects_lem [] w distinct named there single = (w, refl, λ k. refl)
  delete_objects_lem ((i, x) ∷ m) w distinct named there single =
      let (w₁, e, now, single₁) = steady.deletes x w single (rw (named.0) (there.0)) in
      let now' = λ (k : String). now k ∙ ap (λ j. if k == j then none else stands w k) named.0 in
      let (w₂, e', after) =
        delete_objects_lem m w₁ distinct.1 named.1
          (still-IsStanding m i w w₁ now' distinct.0 there.1) single₁ in
      (w₂, ground arith, λ k. ground (arith, now' k, after k, eq_iff k i))

module _ {T : Type 0} (c : Contents T) where
  visit_edge_object-NodupKeys :
      (kube : Dict T) (x : T) (found : Dict T × Dict T)
      → NodupKeys found.0
      → NodupKeys (visit_edge_object c kube x found).0
  unfolding visit_edge_object
  visit_edge_object-NodupKeys kube x (red, synced) h =
      ground (arith, insert-NodupKeys (c.edge_name x) (c.create_content x) red h)

  walk_edge_objects-NodupKeys :
      (kube es : Dict T) (found : Dict T × Dict T)
      → NodupKeys found.0
      → NodupKeys (walk_edge_objects c kube es found).0
  unfolding walk_edge_objects
  walk_edge_objects-NodupKeys kube [] found h = h
  walk_edge_objects-NodupKeys kube ((i, x) ∷ es) found h =
      walk_edge_objects-NodupKeys kube es (visit_edge_object c kube x found)
        (visit_edge_object-NodupKeys kube x found h)

  walk_kube_objects-NodupKeys :
      (edge ks red : Dict T) → NodupKeys red → NodupKeys (walk_kube_objects c edge ks red)
  unfolding walk_kube_objects
  walk_kube_objects-NodupKeys edge [] red h = h
  walk_kube_objects-NodupKeys edge ((i, x) ∷ ks) red h = ground (
    arith,
    walk_kube_objects-NodupKeys edge ks red h,
    walk_kube_objects-NodupKeys edge ks (insert (c.edge_name x) x red)
        (insert-NodupKeys (c.edge_name x) x red h),
  )

  walk_kube_objects-HasEdgeNames :
      (edge ks red : Dict T) → HasEdgeNames c red → HasEdgeNames c (walk_kube_objects c edge ks red)
  unfolding walk_kube_objects
  walk_kube_objects-HasEdgeNames edge [] red h = h
  walk_kube_objects-HasEdgeNames edge ((i, x) ∷ ks) red h = ground (
    arith,
    walk_kube_objects-HasEdgeNames edge ks red h,
    walk_kube_objects-HasEdgeNames edge ks (insert (c.edge_name x) x red)
        (insert-HasEdgeNames c x red h),
  )

  HasEdgeNames-AllEntries :
      (m : Dict T) → HasEdgeNames c m → AllEntries (λ k x. c.edge_name x ≡ k) m
  HasEdgeNames-AllEntries [] h = tt
  HasEdgeNames-AllEntries ((i, x) ∷ m) h = (h.0, HasEdgeNames-AllEntries m h.1)

-- The Kubernetes names of the resources of a map.
abbrev pub kube_names : {T : Type 0} → (T → String) → Dict T → String → Option String
kube_names kube_name m k = elim (lookup k m) [ none ↦ none | some x ↦ some (kube_name x) ]

-- The resources that are made for objects that only the edge platform has get names in Kubernetes
-- that the cluster takes, and different ones.
pub record IsCreatable {T : Type 0} (created_name : T → String) (refuses : String → Bool)
    (edge kube : Dict T) : Type 0 where
  pub free :
      (k : String) (x : T)
      → lookup k edge ≡ some x
      → contains k kube ≡ false
      → refuses (created_name x) ≡ false
  pub apart :
      (k j : String) (x y : T)
      → lookup k edge ≡ some x
      → lookup j edge ≡ some y
      → contains k kube ≡ false
      → contains j kube ≡ false
      → k ≢ j
      → created_name x ≢ created_name y

module _ {W T : Type 0} (c : Contents T) (client : KubeClient W T) (kube_name : T → String)
    (stands : W → String → Option String)
    (steady : Steady client c.edge_name kube_name stands) where
  module _ (edge kube : Dict T) (ne : HasEdgeNames c edge) (de : NodupKeys edge)
      (nk : HasEdgeNames c kube) (dk : NodupKeys kube) where
    new_entry :
        (k : String) (x : T)
        → lookup k (find_differences c edge kube).0 ≡ some x
        → (y : T) × (lookup k edge ≡ some y) × (contains k kube ≡ false) × (x ≡ c.create_content y)
    new_entry k x found =
        let here = find_differences_by_name c edge kube k ne de nk dk in
        elim (Option-cases (lookup k edge)) [
          | inl missing ↦ absurd (ground (arith, here))
          | inr (y, there) ↦ (y, there, ground (arith, here), ground (arith, here))
        ]

    gone_entry :
        (k : String) (x : T)
        → lookup k (find_differences c edge kube).1 ≡ some x
        → lookup k kube ≡ some x
    gone_entry k x found = ground (arith, find_differences_by_name c edge kube k ne de nk dk)

    left_names :
        (k : String)
        → let (red_e, red_k, synced) = find_differences c edge kube in
          (if contains k red_k then false else (if contains k red_e then true else contains k kube))
          ≡ wanted c.is_synced edge kube k
    left_names k = ground (arith, find_differences_by_name c edge kube k ne de nk dk)

  -- The two loops after the comparison end without an error, and leave the wanted names.
  pub differences_applied :
      (edge kube : Dict T) (w : W)
      → HasEdgeNames c edge
      → NodupKeys edge
      → HasEdgeNames c kube
      → NodupKeys kube
      → ((k : String) (x : T) → lookup k edge ≡ some x → c.edge_name (c.create_content x) ≡ k)
      → IsCreatable (λ x. kube_name (c.create_content x)) (steady.refuses w) edge kube
      → steady.single w ≡ true
      → ((k : String) → stands w k ≡ kube_names kube_name kube k)
      → let (redundant_edge, redundant_kube, synced) = find_differences c edge kube in
        (w₁ : W) × (w₂ : W) × (create_objects client redundant_edge w ≡ (value tt, w₁))
        × (delete_objects client redundant_kube w₁ ≡ (value tt, w₂))
        × ((k : String) → is_some (stands w₂ k) ≡ wanted c.is_synced edge kube k)
  unfolding find_differences
  differences_applied edge kube w ne de nk dk kept creatable single seen =
      let (red_e, red_k, synced) = find_differences c edge kube in
      let distinct = walk_edge_objects-NodupKeys c kube edge ([], []) tt in
      let distinct' = walk_kube_objects-NodupKeys c edge kube [] tt in
      let (w₁, e₁, h₁, single₁) =
        create_objects_lem client c.edge_name kube_name stands steady red_e w distinct
          (lookup-AllEntries (λ k x. c.edge_name x ≡ k) red_e distinct
            (λ k x found.
              let (y, there, away, made) = new_entry edge kube ne de nk dk k x found in
              ap c.edge_name made ∙ kept k y there))
          (lookup-AllEntries (λ k x. steady.refuses w (kube_name x) ≡ false) red_e distinct
            (λ k x found.
              let (y, there, away, made) = new_entry edge kube ne de nk dk k x found in
              ap (λ v. steady.refuses w (kube_name v)) made ∙ creatable.free k y there away))
          (lookup-AreApart client c.edge_name kube_name stands steady red_e distinct
            (λ k j x x' found found' other same.
              let (y, there, away, made) = new_entry edge kube ne de nk dk k x found in
              let (z, there', away', made') = new_entry edge kube ne de nk dk j x' found' in
              creatable.apart k j y z there there' away away' other
                (sym (ap kube_name made) ∙ same ∙ ap kube_name made')))
          single
          (λ k found.
            let here = find_differences_by_name c edge kube k ne de nk dk in
            ground (arith, seen k, here)) in
      let (w₂, e₂, h₂) =
        delete_objects_lem client c.edge_name kube_name stands steady red_k w₁ distinct'
          (HasEdgeNames-AllEntries c red_k (walk_kube_objects-HasEdgeNames c edge kube [] tt))
          (lookup-AllEntries (λ k x. stands w₁ k ≡ some (kube_name x)) red_k distinct'
            (λ k x found.
              let there = gone_entry edge kube ne de nk dk k x found in
              let here = find_differences_by_name c edge kube k ne de nk dk in
              ground (arith, h₁ k, seen k, there, here)))
          single₁ in
      (
        w₁,
        w₂,
        e₁,
        e₂,
        λ k. ground (
          arith,
          h₂ k,
          h₁ k,
          seen k,
          left_names edge kube ne de nk dk k,
          find_differences_by_name c edge kube k ne de nk dk,
        ),
      )
