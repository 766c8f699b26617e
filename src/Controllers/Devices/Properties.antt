-- ===== src/Controllers/Devices/Properties.antt =====
-- `reconcileDeviceProperties` (pkg/controllers/device_controller.go).
pub mod Status
pub mod Answers
pub mod Values
pub mod Settling
pub mod Converging
pub mod Edgex
use yurt_device_controller.Prelude.{
  String, List, [], ◌∷◌, ◌++◌, Option, none, some, ◌==◌, if◌then◌else◌,
}
use yurt_device_controller.Prelude.Dict.{Dict, insert}
use yurt_device_controller.Prelude.Io.{Io, Error, value, error, pure, crash, attempt, ◌>>=◌}
use yurt_device_controller.Api.{Device, DeviceStatus, DesiredPropertyState, ActualPropertyState}
use yurt_device_controller.Clients.Errors.{is_not_found_err}
use yurt_device_controller.Controllers.Session.{Session, request, property_read, property_set}
use yurt_device_controller.Controllers.Devices.Reconciler.{DeviceReconciler}

-- The variables of the loop: `newDeviceStatus` and `failedPropertyNames`.
abbrev pub Progress : Type 0
Progress = DeviceStatus × List String

abbrev failed : String → Progress → Progress
failed name (st, names) = (st, names ++ name ∷ [])

-- `newDeviceStatus.DeviceProperties[name] = a`, where the map is not nil.
abbrev stored :
    String → ActualPropertyState → Dict ActualPropertyState → DeviceStatus → DeviceStatus
stored name a m st = record st { device_properties = some (insert name a m) }

-- The value that the edge platform reported is entered, unless the map has only now been made.
abbrev enter : String → ActualPropertyState → DeviceStatus → DeviceStatus
enter name a st = elim (st.device_properties) [
  | none ↦ record st { device_properties = some [] }
  | some m ↦ stored name a m st
]

-- The write after a successful update of the property; the map is there by now.
abbrev overwrite : String → ActualPropertyState → DeviceStatus → DeviceStatus
overwrite name a st = elim (st.device_properties) [
  | none ↦ stored name a [] st
  | some m ↦ stored name a m st
]

module _ {W : Type 0} (r : DeviceReconciler W) (d : Device) where
  -- Step 1.2: the property is set where its desired and its actual value differ.
  set_property :
      DesiredPropertyState → ActualPropertyState → Progress → Io (Session W Device) Progress
  set_property p actual (st, names) =
      if p.desired_value == actual.actual_value then pure (st, names) else do
        done ← attempt (request (property_set p.name) (r.device_cli.update_property_state p.name d))
        elim done [
          | error e ↦ pure (failed p.name (st, names))
          | value _ ↦ pure (
            overwrite p.name
                (record { name = p.name; get_url = actual.get_url; actual_value = p.desired_value })
                st,
            names,
          )
        ]

  -- From the reported state on. A nil state is dereferenced: where the map of the status is there,
  -- to enter the state, and where it is not, to log the values that differ.
  use_property :
      DesiredPropertyState → Option ActualPropertyState → Progress → Io (Session W Device) Progress
  unfolding set_property
  use_property p none progress = crash
  use_property p (some actual) (st, names) = set_property p actual (enter p.name actual st, names)

  -- The error of the read stops this property, unless it says that there is no such command.
  read_property :
      DesiredPropertyState
      → Option ActualPropertyState × Option Error
      → Progress
      → Io (Session W Device) Progress
  unfolding use_property
  read_property p (actual, none) progress = use_property p actual progress
  read_property p (actual, some e) progress =
      if is_not_found_err e then use_property p actual progress else pure (failed p.name progress)

  unfoldable pub reconcile_property :
      DesiredPropertyState → Progress → Io (Session W Device) Progress
  unfolding read_property
  reconcile_property p progress = if p.desired_value == "" then pure progress else do
    reply ← request (property_read p.name) (r.device_cli.get_property_state p.name d)
    read_property p reply progress

  -- The loop over `d.Spec.DeviceProperties`, in the order in which `range` visits it.
  unfoldable pub reconcile_properties :
      Dict DesiredPropertyState → Progress → Io (Session W Device) Progress
  reconcile_properties [] progress = pure progress
  reconcile_properties ((k, p) ∷ rest) progress =
      reconcile_property p progress >>= λ progress'. reconcile_properties rest progress'

  unfoldable pub reconcile_device_properties : DeviceStatus → Io (Session W Device) Progress
  unfolding reconcile_properties
  reconcile_device_properties st = reconcile_properties d.spec.device_properties (st, [])
