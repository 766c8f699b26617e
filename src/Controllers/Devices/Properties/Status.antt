-- ===== src/Controllers/Devices/Properties/Status.antt =====
-- What a status and a list of failed names say of the desired properties.
use yurt_device_controller.Prelude.{
  Option-cases, inl, inr, eq_iff, String, ◌≡◌, ◌≢◌, arith, Bool, true, false, none, some, List, [],
  ◌∷◌, ◌++◌, ◌==◌, if◌then◌else◌, is_some,
}
use yurt_device_controller.Prelude.Dict.{lookup-insert_self, Dict, lookup, lookup-insert}
use yurt_device_controller.Api.{DeviceStatus, DesiredPropertyState, ActualPropertyState}
use yurt_device_controller.Controllers.Devices.Properties.{overwrite, enter, Progress}

abbrev pub has_name : String → List String → Bool
has_name n [] = false
has_name n (m ∷ ms) = if n == m then true else has_name n ms

-- The status shows the desired value of the property.
abbrev pub shows : DesiredPropertyState → DeviceStatus → Bool
shows p st = elim (st.device_properties) [
  | none ↦ false
  | some m ↦ elim (lookup p.name m) [ none ↦ false | some a ↦ a.actual_value == p.desired_value ]
]

-- Nothing is desired of the property, it is among the failed ones, or the status shows its value.
abbrev pub settled : DesiredPropertyState → Progress → Bool
settled p (st, names) =
    if p.desired_value == "" then true else if has_name p.name names then true else shows p st

pub has_name-append_self : (n : String) (ms : List String) → has_name n (ms ++ n ∷ []) ≡ true
has_name-append_self n [] = ground (arith, eq_iff n n)
has_name-append_self n (m ∷ ms) = ground (arith, has_name-append_self n ms)

pub has_name-append :
    (n m : String) (ms : List String) → has_name n ms ≡ true → has_name n (ms ++ m ∷ []) ≡ true
has_name-append n m [] h = cc
has_name-append n m (k ∷ ms) h = ground (arith, has_name-append n m ms)

pub shows-overwrite_self :
    (p : DesiredPropertyState) (a : ActualPropertyState) (st : DeviceStatus)
    → shows p (overwrite p.name a st) ≡ (a.actual_value == p.desired_value)
shows-overwrite_self p a st = elim (Option-cases st.device_properties) [
  | inl e ↦ ground (arith, lookup-insert_self p.name a [])
  | inr (m, e) ↦ ground (arith, lookup-insert_self p.name a m)
]

pub shows-overwrite_ne :
    (q : DesiredPropertyState) (n : String) (a : ActualPropertyState) (st : DeviceStatus)
    → q.name ≢ n
    → shows q (overwrite n a st) ≡ shows q st
shows-overwrite_ne q n a st ne = elim (Option-cases st.device_properties) [
  | inl e ↦ ground (arith, eq_iff q.name n)
  | inr (m, e) ↦ ground (arith, eq_iff q.name n, lookup-insert q.name n a m)
]

-- On a status with a map, entering a value is overwriting it.
pub enter-eq-overwrite :
    (n : String) (a : ActualPropertyState) (st : DeviceStatus)
    → is_some st.device_properties ≡ true
    → enter n a st ≡ overwrite n a st
enter-eq-overwrite n a st h = ground arith

pub overwrite-is_some :
    (n : String) (a : ActualPropertyState) (st : DeviceStatus)
    → is_some (overwrite n a st).device_properties ≡ true
overwrite-is_some n a st = ground arith

-- No later entry has the name of `q`.
abbrev pub IsFresh : DesiredPropertyState → Dict DesiredPropertyState → Type 0
IsFresh q [] = Unit
IsFresh q ((k, p) ∷ ps) = (q.name ≢ p.name) × IsFresh q ps

-- The entries describe properties of different names.
abbrev pub HasDistinctNames : Dict DesiredPropertyState → Type 0
HasDistinctNames [] = Unit
HasDistinctNames ((k, p) ∷ ps) = IsFresh p ps × HasDistinctNames ps

abbrev pub AllSettled : Dict DesiredPropertyState → Progress → Type 0
AllSettled [] progress = Unit
AllSettled ((k, p) ∷ ps) progress = (settled p progress ≡ true) × AllSettled ps progress

abbrev pub AreSettled : DesiredPropertyState → Progress → Type 0
AreSettled p progress = (settled p progress ≡ true) × (is_some progress.0.device_properties ≡ true)
