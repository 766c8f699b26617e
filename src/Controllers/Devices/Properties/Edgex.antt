-- ===== src/Controllers/Devices/Properties/Edgex.antt =====
-- The client of EdgeX, over a command service that stores what is written, is a platform on
-- which the values of properties converge.
use yurt_device_controller.Prelude.{
  ◌≡◌, ◌∙◌, sym, arith, eq_iff, String, some, true, false, [], ◌∷◌,
}
use yurt_device_controller.Prelude.Dict.{Dict}
use yurt_device_controller.Api.{Device, DeviceStatus, DesiredPropertyState}
use yurt_device_controller.EdgeX.Names.{get_edgex_name}
use yurt_device_controller.EdgeX.Http.{CoreCommand}
use yurt_device_controller.EdgeX.DeviceClient.{device_interface}
use yurt_device_controller.EdgeX.DeviceClient.Client.{EdgexDeviceClient}
use yurt_device_controller.EdgeX.DeviceClient.Properties.Commands.{
  Serves, Desires, seen, get_property_state-seen, update_property_state-writes,
}
use yurt_device_controller.EdgeX.DeviceClient.Properties.Keeping.{
  IsApart, get_property_state-keep, update_property_state-keep,
}
use yurt_device_controller.Controllers.Devices.Reconciler.{DeviceReconciler}
use yurt_device_controller.Controllers.Devices.Properties.Converging.{
  Stores, StoresAll, failed_after, all_held, property_values_converge,
}
use yurt_device_controller.Controllers.Devices.Properties.Status.{HasDistinctNames}
use yurt_device_controller.Controllers.Devices.Properties.{reconcile_device_properties}
use yurt_device_controller.Controllers.Session.{any, is_property_set}

module _ {W : Type 0} (r : DeviceReconciler W) (efc : EdgexDeviceClient W)
    (holds : String → W → String) where
  -- For a property that a device desires, without a URL to set it, and whose command has one
  -- parameter with the name of the property, over a command service that stores what is written
  -- and keeps the values of other properties: through the client of EdgeX the property is read as
  -- the value that the service holds, setting it stores the desired value, and neither changes the
  -- value of another property.
  pub edgex_client-Stores :
      (c : CoreCommand) (d : Device) (p : DesiredPropertyState)
      → Serves efc (get_edgex_name d.metadata) c c.name (holds c.name)
      → IsApart efc c c.name holds
      → Desires efc d c p
      → Stores (record r { device_cli = device_interface efc }) d holds p
  edgex_client-Stores c d p serves apart wants = record {
    reads = λ w.
        let (w', read, kept) =
          get_property_state-seen efc c c.name (holds c.name) d serves p w wants in
        (
          seen efc c c.name (holds c.name) d serves w,
          w',
          ground (arith, read, wants.named),
          ground (arith, eq_iff c.name c.name, wants.named),
          λ n. ground (arith, read, get_property_state-keep efc c c.name holds apart n c.name d w),
        );
    sets = λ w.
        let (w', set, stored) =
          update_property_state-writes efc c c.name (holds c.name) d serves p w wants in
        (
          w',
          ground (arith, set, wants.named),
          ground (arith, stored, wants.named),
          λ n other. ground (
            arith,
            set,
            wants.named,
            update_property_state-keep efc c c.name holds apart n d p w serves wants
                (λ e. other (e ∙ sym wants.named)),
          ),
        );
  }

  -- Each property has such a command.
  abbrev pub ServesAll : Device → Dict DesiredPropertyState → Type 0
  ServesAll d [] = Unit
  ServesAll d ((k, p) ∷ ps) =
      ((c : CoreCommand) × Serves efc (get_edgex_name d.metadata) c c.name (holds c.name)
        × IsApart efc c c.name holds
        × Desires efc d c p)
      × ServesAll d ps

  ServesAll-StoresAll :
      (d : Device) (ps : Dict DesiredPropertyState)
      → ServesAll d ps
      → StoresAll (record r { device_cli = device_interface efc }) d holds ps
  ServesAll-StoresAll d [] serves = tt
  ServesAll-StoresAll d ((k, p) ∷ ps) ((c, served, apart, wants), rest) =
      (edgex_client-Stores c d p served apart wants, ServesAll-StoresAll d ps rest)

  -- Over a command service that stores what is written and keeps the values of other properties,
  -- where the properties that a device desires have distinct names and no URLs to set them, and the
  -- command of each has one parameter with its name: two passes of reconcileDeviceProperties with
  -- the client of EdgeX, the second on a device that desires the same, both return and no property
  -- fails, after each of them the service holds every desired value, and the second sets no
  -- property.
  pub edgex_values_converge :
      (d d' : Device) (st st' : DeviceStatus) (w : W)
      → d'.spec.device_properties ≡ d.spec.device_properties
      → ServesAll d d.spec.device_properties
      → ServesAll d' d'.spec.device_properties
      → HasDistinctNames d.spec.device_properties
      → let r' : DeviceReconciler W = record r { device_cli = device_interface efc } in
        let first =
          reconcile_device_properties r' d st (record { world = w; object = d; trace = [] }) in
        let second =
          reconcile_device_properties r' d' st'
            (record { world = first.1.world; object = d'; trace = [] }) in
        (failed_after first.0 ≡ some [])
        × (failed_after second.0 ≡ some [])
        × (all_held holds d.spec.device_properties first.1.world ≡ true)
        × (all_held holds d.spec.device_properties second.1.world ≡ true)
        × (any is_property_set second.1.trace ≡ false)
  edgex_values_converge d d' st st' w same serves serves' distinct =
      property_values_converge (record r { device_cli = device_interface efc }) holds d d' st st' w
        same (ServesAll-StoresAll d d.spec.device_properties serves)
        (ServesAll-StoresAll d' d'.spec.device_properties serves') distinct
