-- ===== src/Prelude/Memory.antt =====
-- Go's references, for code whose point is which objects it shares: a reference is nil or the
-- address of an object together with what the object holds at that moment, and an allocation
-- takes the next unused address.
pub mod Deep
use Prim.Native.Nat.{ℕ, suc, ◌≤◌, ◌<◌}
use mathlib.Core.Path.{◌≡◌, refl, ap}
use mathlib.Core.Bool.{Bool, true, false, not, ◌&&◌, ◌||◌}
use mathlib.Core.List.{List, [], ◌∷◌, ◌++◌, map}
use mathlib.Core.Option.{Option, none, some}
use native.Mathlib.Omega.{arith}
use yurt_device_controller.Prelude.Tests.{same_number}
use yurt_device_controller.Prelude.Dict.{Dict}

pub data Ref (A : Type 0) : Type 0 where
  nil : Ref A
  at : ℕ → A → Ref A

-- Code that allocates: it takes the first unused address and gives the first one unused after it.
abbrev pub Alloc : Type 0 → Type 0
Alloc A = ℕ → A × ℕ

abbrev pub pure : {A : Type 0} → A → Alloc A
pure a n = (a, n)

infixl 5 ◌>>=◌
abbrev pub ◌>>=◌ : {A B : Type 0} → Alloc A → (A → Alloc B) → Alloc B
◌>>=◌ m f n = let (a, n') = m n in f a n'

-- `new(T)` and `make(T, ...)`: the address of a new object
abbrev pub fresh : Alloc ℕ
fresh n = (n, suc n)

-- The code that copies the object behind a reference: nothing for nil, else a new object with
-- the contents that `copy` makes.
unfoldable pub copy_object : {A : Type 0} → (A → Alloc A) → Ref A → Alloc (Ref A)
copy_object copy nil = pure nil
copy_object copy (at a x) = do p ← fresh; y ← copy x; pure (at p y)

-- `for i := range *in`
unfoldable pub copy_elements : {A : Type 0} → (A → Alloc A) → List A → Alloc (List A)
copy_elements copy [] = pure []
copy_elements copy (x ∷ xs) = do y ← copy x; ys ← copy_elements copy xs; pure (y ∷ ys)

-- `for key, val := range *in`. A map has one entry for a key, so that the writes into the new
-- map add an entry each.
unfoldable pub copy_entries : {A : Type 0} → (A → Alloc A) → Dict A → Alloc (Dict A)
copy_entries copy [] = pure []
copy_entries copy ((k, x) ∷ d) = do y ← copy x; e ← copy_entries copy d; pure ((k, y) ∷ e)

-- A value without references copies by assignment.
abbrev pub clone : {A : Type 0} → Ref A → Alloc (Ref A)
clone r = copy_object pure r

-- What is behind a reference, whatever its address.
abbrev pub view_ref : {A C : Type 0} → (A → C) → Ref A → Option C
view_ref view nil = none
view_ref view (at a x) = some (view x)

abbrev pub view_entries : {A C : Type 0} → (A → C) → Dict A → Dict C
view_entries view [] = []
view_entries view ((k, x) ∷ d) = (k, view x) ∷ view_entries view d

-- The addresses that a value leads to.
abbrev pub ref_addresses : {A : Type 0} → (A → List ℕ) → Ref A → List ℕ
ref_addresses addresses nil = []
ref_addresses addresses (at a x) = a ∷ addresses x

abbrev pub list_addresses : {A : Type 0} → (A → List ℕ) → List A → List ℕ
list_addresses addresses [] = []
list_addresses addresses (x ∷ xs) = addresses x ++ list_addresses addresses xs

abbrev pub entries_addresses : {A : Type 0} → (A → List ℕ) → Dict A → List ℕ
entries_addresses addresses [] = []
entries_addresses addresses ((k, x) ∷ d) = addresses x ++ entries_addresses addresses d

abbrev pub no_addresses : {A : Type 0} → A → List ℕ
no_addresses x = []

-- All of the addresses are from `n` on and below `m`.
abbrev pub Within : ℕ → ℕ → List ℕ → Type 0
Within n m [] = Unit
Within n m (a ∷ xs) = (n ≤ a) × (a < m) × Within n m xs

-- No address stands in both lists.
abbrev pub has : ℕ → List ℕ → Bool
has a [] = false
has a (x ∷ xs) = same_number a x || has a xs

abbrev pub disjoint : List ℕ → List ℕ → Bool
disjoint [] ys = true
disjoint (x ∷ xs) ys = not (has x ys) && disjoint xs ys

-- A copy is deep when it reads as the original does and every address it leads to is that of an
-- object allocated while copying.
pub record IsDeep {T C : Type 0} (copy : T → Alloc T) (view : T → C) (addresses : T → List ℕ)
    : Type 0 where
  pub same : (t : T) (n : ℕ) → view (copy t n).0 ≡ view t
  pub grows : (t : T) (n : ℕ) → n ≤ (copy t n).1
  pub separate : (t : T) (n : ℕ) → Within n (copy t n).1 (addresses (copy t n).0)
