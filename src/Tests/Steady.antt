-- ===== src/Tests/Steady.antt =====
-- A cluster that keeps its resources in a map by their names on the edge platform, each name once, and
-- refuses a new resource whose name in Kubernetes is taken.
use yurt_device_controller.Prelude.{
  String, ◌≡◌, ◌∙◌, sym, ap, refl, arith, eq_iff, List, [], ◌∷◌, none, some, true, false, Option,
  Bool, if◌then◌else◌, ◌==◌,
}
use yurt_device_controller.Prelude.Dict.{Dict, lookup, insert, lookup-insert}
use yurt_device_controller.Prelude.Io.{Reason, already_exists, value, error}
use yurt_device_controller.Controllers.Kube.{KubeClient}
use yurt_device_controller.Controllers.Differences.Rounds.{Steady, IsCreatable, kube_names}

abbrev pub remove : {V : Type 0} → String → Dict V → Dict V
remove n [] = []
remove n ((k, v) ∷ m) = if n == k then remove n m else (k, v) ∷ remove n m

lookup-remove :
    {V : Type 0} (k n : String) (m : Dict V)
    → lookup k (remove n m) ≡ (if k == n then none else lookup k m)
lookup-remove k n [] = ground arith
lookup-remove k n ((j, v) ∷ m) =
    ground (arith, eq_iff k n, eq_iff n j, eq_iff k j, lookup-remove k n m)

abbrev pub values : {V : Type 0} → Dict V → List V
values [] = []
values ((k, v) ∷ m) = v ∷ values m

-- Some resource has the name in Kubernetes.
abbrev pub taken : {V : Type 0} → (V → String) → String → Dict V → Bool
taken kube_name n [] = false
taken kube_name n ((k, v) ∷ m) = if n == kube_name v then true else taken kube_name n m

taken-insert :
    {V : Type 0} (kube_name : V → String) (n k : String) (v : V) (m : Dict V)
    → lookup k m ≡ none
    → taken kube_name n (insert k v m) ≡ (if n == kube_name v then true else taken kube_name n m)
taken-insert kube_name n k v [] absent = refl
taken-insert kube_name n k v ((j, w) ∷ m) absent =
    ground (arith, eq_iff k j, taken-insert kube_name n k v m)

module _ {T : Type 0} (name kube_name : T → String) where
  abbrev pub store : KubeClient (Dict T) T
  store = record {
    get = λ n m. (
      elim (lookup n m) [
        | none ↦ error (record { reason = Reason.not_found; message = "not found" })
        | some x ↦ value x
      ],
      m,
    );
    patch_finalizers = λ x fs m. (value x, m);
    update_status = λ x m. (value x, m);
    create = λ x m.
        if taken kube_name (kube_name x) m
        then (error (record { reason = already_exists; message = "already exists" }), m)
        else (value tt, insert (name x) x m);
    delete = λ x m. (value tt, remove (name x) m);
    list = λ pool namespace m. (value (values m), m);
  }

  abbrev pub stored : Dict T → String → Option String
  stored m k = kube_names kube_name m k

  pub store-creates :
      (x : T) (m : Dict T)
      → stored m (name x) ≡ none
      → taken kube_name (kube_name x) m ≡ false
      → (m' : Dict T) × (store.create x m ≡ (value tt, m'))
        × ((k : String) → stored m' k ≡ (if k == name x then some (kube_name x) else stored m k))
        × ((n : String)
            → taken kube_name n m' ≡ (if n == kube_name x then true else taken kube_name n m))
        × (true ≡ true)
  store-creates x m absent free = (
    insert (name x) x m,
    ground arith,
    λ k. ground (arith, lookup-insert k (name x) x m),
    λ n. taken-insert kube_name n (name x) x m (ground arith),
    refl,
  )

  pub store-deletes :
      (x : T) (m : Dict T)
      → (m' : Dict T) × (store.delete x m ≡ (value tt, m'))
        × ((k : String) → stored m' k ≡ (if k == name x then none else stored m k))
        × (true ≡ true)
  store-deletes x m =
      (remove (name x) m, refl, λ k. ground (arith, lookup-remove k (name x) m), refl)

  abbrev pub store-Steady : Steady store name kube_name stored
  store-Steady = record {
    refuses = λ m n. taken kube_name n m;
    single = λ m. true;
    creates = λ x m one absent free. store-creates x m absent free;
    deletes = λ x m one there. store-deletes x m;
    updates = λ x m k. refl;
  }

single_entry :
    {V : Type 0} (k j : String) (v x : V) → lookup k ((j, v) ∷ []) ≡ some x → (x ≡ v) × (k ≡ j)
single_entry k j v x found = (ground (arith, eq_iff k j), ground (arith, eq_iff k j))

-- A map of one object.
pub single-IsCreatable :
    {V : Type 0} (created_name : V → String) (refuses : String → Bool) (j : String) (v : V)
    (kube : Dict V)
    → refuses (created_name v) ≡ false
    → IsCreatable created_name refuses ((j, v) ∷ []) kube
single-IsCreatable created_name refuses j v kube free = record {
  free = λ k x found away. ap (λ y. refuses (created_name y)) (single_entry k j v x found).0 ∙ free;
  apart = λ k i x y found found' away away' other same.
      other ((single_entry k j v x found).1 ∙ sym (single_entry i j v y found').1);
}
