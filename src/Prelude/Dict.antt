-- ===== src/Prelude/Dict.antt =====
-- Go's `map[string]V`, as an association list with at most one entry for a key. `range` visits
-- the entries in no fixed order; a list is one such order.
use Prim.Native.String.{String}
use mathlib.Core.Path.{◌≡◌, refl, ◌∙◌, ap}
use mathlib.Core.Bool.{Bool}
use mathlib.Core.List.{List, [], ◌∷◌, ◌++◌, append-nil, append_assoc}
use mathlib.Core.Option.{Option, none, some}
use native.Mathlib.Omega.{arith}
use text.Mathlib.TextEquality.{eq_iff}
use text.Mathlib.TextPositions.{eq_refl}
use yurt_device_controller.Prelude.Tests.{◌==◌, if◌then◌else◌, is_some}

abbrev pub Dict : Type 0 → Type 0
Dict V = List (String × V)

module _ {V : Type 0} where
  -- `v, ok := d[k]`
  abbrev pub lookup : String → Dict V → Option V
  lookup k [] = none
  lookup k ((j, v) ∷ d) = if k == j then some v else lookup k d

  -- `_, ok := d[k]`
  abbrev pub contains : String → Dict V → Bool
  contains k d = is_some (lookup k d)

  -- `d[k] = v`
  abbrev pub insert : String → V → Dict V → Dict V
  insert k v [] = (k, v) ∷ []
  insert k v ((j, w) ∷ d) = if k == j then (k, v) ∷ d else (j, w) ∷ insert k v d

  -- No key has two entries.
  abbrev pub NodupKeys : Dict V → Type 0
  NodupKeys [] = Unit
  NodupKeys ((j, v) ∷ d) = (lookup j d ≡ none) × NodupKeys d

  pub lookup-insert :
      (k j : String) (v : V) (d : Dict V)
      → lookup k (insert j v d) ≡ (if k == j then some v else lookup k d)
  lookup-insert k j v [] = refl
  lookup-insert k j v ((i, w) ∷ d) =
      ground (arith, eq_iff k j, eq_iff j i, eq_iff k i, lookup-insert k j v d)

  pub lookup-insert_self : (k : String) (v : V) (d : Dict V) → lookup k (insert k v d) ≡ some v
  lookup-insert_self k v d = simp (lookup-insert, eq_refl)

  pub insert-NodupKeys : (k : String) (v : V) (d : Dict V) → NodupKeys d → NodupKeys (insert k v d)
  insert-NodupKeys k v [] h = (refl, tt)
  insert-NodupKeys k v ((j, w) ∷ d) h =
      ground (arith, eq_iff k j, eq_iff j k, lookup-insert j k v d, insert-NodupKeys k v d h.1)

  pub lookup-append_fresh :
      (k : String) (v : V) (d e : Dict V) → NodupKeys (d ++ (k, v) ∷ e) → lookup k d ≡ none
  lookup-append_fresh k v [] e h = refl
  lookup-append_fresh k v ((j, w) ∷ d) e h =
      ground (arith, eq_iff k j, lookup-append_self k v d e, lookup-append_fresh k v d e h.1)
    where
      lookup-append_self :
          (k : String) (v : V) (d e : Dict V) → lookup k (d ++ (k, v) ∷ e) ≡ none → ⊥
      lookup-append_self k v [] e p = ground (arith, eq_iff k k)
      lookup-append_self k v ((i, u) ∷ d) e p = ground (arith, lookup-append_self k v d e)

  insert-eq-append :
      (k : String) (v : V) (d : Dict V) → lookup k d ≡ none → insert k v d ≡ d ++ (k, v) ∷ []
  insert-eq-append k v [] h = refl
  insert-eq-append k v ((j, w) ∷ d) h = ground (arith, insert-eq-append k v d)

  pub insert_at_end :
      (k : String) (v : V) (d e : Dict V)
      → NodupKeys (d ++ (k, v) ∷ e)
      → insert k v d ≡ d ++ (k, v) ∷ []
  insert_at_end k v d e h = insert-eq-append k v d (lookup-append_fresh k v d e h)

-- `for k, v := range source { ret[k] = f(v) }`
module _ {A B : Type 0} (f : A → B) where
  abbrev pub fill : Dict B → Dict A → Dict B
  fill ret [] = ret
  fill ret ((k, v) ∷ source) = fill (insert k (f v) ret) source

  abbrev pub map_values : Dict A → Dict B
  map_values [] = []
  map_values ((k, v) ∷ d) = (k, f v) ∷ map_values d

  lookup-map_values : (k : String) (d : Dict A) → lookup k d ≡ none → lookup k (map_values d) ≡ none
  lookup-map_values k [] h = refl
  lookup-map_values k ((j, v) ∷ d) h = ground (arith, lookup-map_values k d)

  pub map_values-NodupKeys : (d : Dict A) → NodupKeys d → NodupKeys (map_values d)
  map_values-NodupKeys [] h = tt
  map_values-NodupKeys ((j, v) ∷ d) h = (lookup-map_values j d h.0, map_values-NodupKeys d h.1)

  fill_onto :
      (ret : Dict B) (source : Dict A)
      → NodupKeys (ret ++ map_values source)
      → fill ret source ≡ ret ++ map_values source
  fill_onto ret [] h = rw append-nil
  fill_onto ret ((k, v) ∷ source) h =
      rw (insert_at_end k (f v) ret (map_values source) h)
        (fill_onto (ret ++ (k, f v) ∷ []) source (rw append_assoc h) ∙ append_assoc ret _ _)

  -- Filling an empty map keeps the entries and their order.
  pub fill-eq-map_values : (source : Dict A) → NodupKeys source → fill [] source ≡ map_values source
  fill-eq-map_values source h = fill_onto [] source (map_values-NodupKeys source h)

pub map_values_id : {A : Type 0} (d : Dict A) → map_values (λ v. v) d ≡ d
map_values_id [] = refl
map_values_id ((k, v) ∷ d) = ap (λ e. (k, v) ∷ e) (map_values_id d)
