-- ===== src/Prelude/Memory/Deep.antt =====
-- Copies of objects, of lists, of maps and of pairs are deep where those of their parts are.
use Prim.Native.Nat.{ℕ, suc, ◌≤◌}
use mathlib.Core.Path.{◌≡◌, refl, ap}
use mathlib.Core.Bool.{true, false}
use mathlib.Core.List.{List, [], ◌∷◌, ◌++◌, map}
use mathlib.Core.Option.{some}
use native.Mathlib.Omega.{arith}
use yurt_device_controller.Prelude.Dict.{Dict}
use yurt_device_controller.Prelude.Memory.{
  Ref, nil, at, Alloc, pure, ◌>>=◌, copy_object, copy_elements, copy_entries, clone, view_ref,
  view_entries, ref_addresses, list_addresses, entries_addresses, no_addresses, Within, has,
  disjoint, IsDeep,
}

pub Within-mono : (n' n m m' : ℕ) (xs : List ℕ) → n' ≤ n → m ≤ m' → Within n m xs → Within n' m' xs
Within-mono n' n m m' [] p q h = tt
Within-mono n' n m m' (a ∷ xs) p q h = ground (arith, Within-mono n' n m m' xs)

pub Within-append :
    (n m k : ℕ) (xs ys : List ℕ)
    → n ≤ m
    → m ≤ k
    → Within n m xs
    → Within m k ys
    → Within n k (xs ++ ys)
Within-append n m k [] ys p q h h' = Within-mono n m k k ys p (omega arith) h'
Within-append n m k (a ∷ xs) ys p q h h' = ground (arith, Within-append n m k xs ys)

pub IsDeep-pure : {A C : Type 0} (view : A → C) → IsDeep pure view no_addresses
IsDeep-pure view = record { same = λ t n. refl; grows = λ t n. omega arith; separate = λ t n. tt }

module _ {A C : Type 0} {copy : A → Alloc A} {view : A → C} {addresses : A → List ℕ}
    (deep : IsDeep copy view addresses) where
  copy_object-same : (r : Ref A) (n : ℕ) → view_ref view (copy_object copy r n).0 ≡ view_ref view r
  unfolding copy_object
  copy_object-same nil n = refl
  copy_object-same (at a x) n = ap some (deep.same x (suc n))

  copy_object-grows : (r : Ref A) (n : ℕ) → n ≤ (copy_object copy r n).1
  unfolding copy_object
  copy_object-grows nil n = omega arith
  copy_object-grows (at a x) n = omega (arith, deep.grows x (suc n))

  copy_object-separate :
      (r : Ref A) (n : ℕ)
      → Within n (copy_object copy r n).1 (ref_addresses addresses (copy_object copy r n).0)
  unfolding copy_object
  copy_object-separate nil n = tt
  copy_object-separate (at a x) n =
      let higher = deep.grows x (suc n) in
      (
        omega arith,
        omega arith,
        Within-mono n (suc n) _ _ _ (omega arith) (omega arith) (deep.separate x (suc n)),
      )

  pub IsDeep-copy_object : IsDeep (copy_object copy) (view_ref view) (ref_addresses addresses)
  IsDeep-copy_object = record {
    same = copy_object-same;
    grows = copy_object-grows;
    separate = copy_object-separate;
  }

  copy_elements-same : (xs : List A) (n : ℕ) → map view (copy_elements copy xs n).0 ≡ map view xs
  unfolding copy_elements
  copy_elements-same [] n = refl
  copy_elements-same (x ∷ xs) n = rw (deep.same x n, copy_elements-same xs (copy x n).1)

  copy_elements-grows : (xs : List A) (n : ℕ) → n ≤ (copy_elements copy xs n).1
  unfolding copy_elements
  copy_elements-grows [] n = omega arith
  copy_elements-grows (x ∷ xs) n =
      omega (arith, deep.grows x n, copy_elements-grows xs (copy x n).1)

  copy_elements-separate :
      (xs : List A) (n : ℕ)
      → Within n (copy_elements copy xs n).1 (list_addresses addresses (copy_elements copy xs n).0)
  unfolding copy_elements
  copy_elements-separate [] n = tt
  copy_elements-separate (x ∷ xs) n =
      Within-append n (copy x n).1 _ _ _ (deep.grows x n) (copy_elements-grows xs (copy x n).1)
        (deep.separate x n) (copy_elements-separate xs (copy x n).1)

  pub IsDeep-copy_elements : IsDeep (copy_elements copy) (map view) (list_addresses addresses)
  IsDeep-copy_elements = record {
    same = copy_elements-same;
    grows = copy_elements-grows;
    separate = copy_elements-separate;
  }

  copy_entries-same :
      (d : Dict A) (n : ℕ) → view_entries view (copy_entries copy d n).0 ≡ view_entries view d
  unfolding copy_entries
  copy_entries-same [] n = refl
  copy_entries-same ((k, x) ∷ d) n = rw (deep.same x n, copy_entries-same d (copy x n).1)

  copy_entries-grows : (d : Dict A) (n : ℕ) → n ≤ (copy_entries copy d n).1
  unfolding copy_entries
  copy_entries-grows [] n = omega arith
  copy_entries-grows ((k, x) ∷ d) n =
      omega (arith, deep.grows x n, copy_entries-grows d (copy x n).1)

  copy_entries-separate :
      (d : Dict A) (n : ℕ)
      → Within n (copy_entries copy d n).1 (entries_addresses addresses (copy_entries copy d n).0)
  unfolding copy_entries
  copy_entries-separate [] n = tt
  copy_entries-separate ((k, x) ∷ d) n =
      Within-append n (copy x n).1 _ _ _ (deep.grows x n) (copy_entries-grows d (copy x n).1)
        (deep.separate x n) (copy_entries-separate d (copy x n).1)

  pub IsDeep-copy_entries :
      IsDeep (copy_entries copy) (view_entries view) (entries_addresses addresses)
  IsDeep-copy_entries = record {
    same = copy_entries-same;
    grows = copy_entries-grows;
    separate = copy_entries-separate;
  }

-- Two copies one after the other.
abbrev pub copy_both : {A B : Type 0} → (A → Alloc A) → (B → Alloc B) → A × B → Alloc (A × B)
copy_both copy_a copy_b (a, b) = do x ← copy_a a; y ← copy_b b; pure (x, y)

pub IsDeep-copy_both :
    {A B C D : Type 0} {copy_a : A → Alloc A} {copy_b : B → Alloc B} {view_a : A → C}
    {view_b : B → D} {of_a : A → List ℕ} {of_b : B → List ℕ}
    → IsDeep copy_a view_a of_a
    → IsDeep copy_b view_b of_b
    → IsDeep {T = A × B} {C = C × D}
        (copy_both copy_a copy_b)
        (λ p. (view_a p.0, view_b p.1))
        (λ p. of_a p.0 ++ of_b p.1)
IsDeep-copy_both {copy_a = copy_a} {copy_b = copy_b} da db = record {
  same = λ p n. rw (da.same p.0 n, db.same p.1 (copy_a p.0 n).1);
  grows = λ p n. omega (arith, da.grows p.0 n, db.grows p.1 (copy_a p.0 n).1);
  separate = λ p n.
      Within-append n (copy_a p.0 n).1 _ _ _ (da.grows p.0 n) (db.grows p.1 (copy_a p.0 n).1)
        (da.separate p.0 n) (db.separate p.1 (copy_a p.0 n).1);
}

-- A map, and a slice, of values without references.
pub IsDeep-copy_map :
    {A : Type 0}
    → IsDeep
        (copy_object (copy_entries (pure {A = A})))
        (view_ref (view_entries λ a. a))
        (ref_addresses (entries_addresses no_addresses))
IsDeep-copy_map = IsDeep-copy_object (IsDeep-copy_entries (IsDeep-pure λ a. a))

pub IsDeep-clone :
    {A : Type 0} → IsDeep (clone {A = A}) (view_ref λ a. a) (ref_addresses no_addresses)
IsDeep-clone = IsDeep-copy_object (IsDeep-pure λ a. a)

has-Within : (a n : ℕ) (ys : List ℕ) → n ≤ a → Within 0 n ys → has a ys ≡ false
has-Within a n [] p h = refl
has-Within a n (y ∷ ys) p h = ground (arith, has-Within a n ys p)

-- What was allocated before and what was allocated since share nothing.
pub disjoint-Within :
    (n m : ℕ) (xs ys : List ℕ) → Within n m xs → Within 0 n ys → disjoint xs ys ≡ true
disjoint-Within n m [] ys h h' = refl
disjoint-Within n m (x ∷ xs) ys h h' = ground (arith, has-Within x n ys, disjoint-Within n m xs ys)
