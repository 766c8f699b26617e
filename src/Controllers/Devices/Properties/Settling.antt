-- ===== src/Controllers/Devices/Properties/Settling.antt =====
-- The loop over the desired properties, run by the client of EdgeX over a command service that
-- stores what is written.
use yurt_device_controller.Prelude.{
  ◌≡◌, arith, eq_iff, true, false, not, String, [], ◌==◌, if◌then◌else◌,
}
use yurt_device_controller.Prelude.Io.{Outcome}
use yurt_device_controller.Api.{Device, DesiredPropertyState}
use yurt_device_controller.EdgeX.Names.{get_edgex_name}
use yurt_device_controller.EdgeX.Http.{CoreCommand}
use yurt_device_controller.EdgeX.DeviceClient.{device_interface}
use yurt_device_controller.EdgeX.DeviceClient.Client.{EdgexDeviceClient}
use yurt_device_controller.EdgeX.DeviceClient.Properties.Commands.{
  Serves, Desires, get_property_state-seen, update_property_state-writes,
}
use yurt_device_controller.Controllers.Devices.Properties.Answers.{returns}
use yurt_device_controller.Controllers.Session.{Session, any, is_property_set}
use yurt_device_controller.Controllers.Devices.Reconciler.{DeviceReconciler}
use yurt_device_controller.Controllers.Devices.Properties.{
  Progress, reconcile_property, read_property, use_property, set_property,
}

module _ {W : Type 0} (r : DeviceReconciler W) (efc : EdgexDeviceClient W) (c : CoreCommand)
    (resource : String) (holds : W → String) where
  -- The reconciler with that client.
  abbrev pub over_edgex : DeviceReconciler W
  over_edgex = record r { device_cli = device_interface efc }

  -- One round for the property: it is set unless the desired value is read, and the service then
  -- holds the desired value.
  pub record IsRound (p : DesiredPropertyState) (s : Session W Device)
      (q : Outcome Progress × Session W Device) : Type 0 where
    pub ended : returns q.0 ≡ true
    pub held : holds q.1.world ≡ p.desired_value
    pub sets : any is_property_set q.1.trace ≡ (
        if p.desired_value == (if c.name == resource then holds s.world else "")
        then any is_property_set s.trace
        else true)

  pub reconcile_property-IsRound :
      (d : Device) (p : DesiredPropertyState) (progress : Progress) (s : Session W Device)
      → Serves efc (get_edgex_name d.metadata) c resource holds
      → Desires efc d c p
      → (p.desired_value == "") ≡ false
      → IsRound p s (reconcile_property over_edgex d p progress s)
  unfolding reconcile_property read_property use_property set_property
  reconcile_property-IsRound d p (st, names) s serves wants desired =
      let (w₁, read, kept) =
        get_property_state-seen efc c resource holds d serves p s.world wants in
      let (w₂, set, stored) =
        update_property_state-writes efc c resource holds d serves p w₁ wants in
      let same = eq_iff p.desired_value (holds s.world) in
      record {
        ended = ground (arith, read, set, wants.named);
        held = ground (arith, read, set, wants.named, kept, stored, same);
        sets = ground (arith, read, set, wants.named);
      }

  -- Two rounds for a property with a desired value, one after the other, on devices that desire
  -- that value and have the same name on the edge platform, over a command service that stores
  -- what is written, for a command with one parameter: both end, the service holds the desired
  -- value after both, and the second sets the property once more exactly if the resource of the
  -- command has another name than the property.
  pub second_round_sets_again :
      (d d' : Device) (p : DesiredPropertyState) (progress progress' : Progress) (w : W)
      → Serves efc (get_edgex_name d.metadata) c resource holds
      → Serves efc (get_edgex_name d'.metadata) c resource holds
      → Desires efc d c p
      → Desires efc d' c p
      → (p.desired_value == "") ≡ false
      → let first =
          reconcile_property over_edgex d p progress
            (record { world = w; object = d; trace = [] }) in
        let second =
          reconcile_property over_edgex d' p progress'
            (record { world = first.1.world; object = d'; trace = [] }) in
        (returns first.0 ≡ true)
        × (returns second.0 ≡ true)
        × (holds first.1.world ≡ p.desired_value)
        × (holds second.1.world ≡ p.desired_value)
        × (any is_property_set second.1.trace ≡ not (c.name == resource))
  second_round_sets_again d d' p progress progress' w serves serves' wants wants' desired =
      let s : Session W Device = record { world = w; object = d; trace = [] } in
      let one = reconcile_property-IsRound d p progress s serves wants desired in
      let s' : Session W Device = record {
        world = (reconcile_property over_edgex d p progress s).1.world;
        object = d';
        trace = [];
      } in
      let two = reconcile_property-IsRound d' p progress' s' serves' wants' desired in
      (
        one.ended,
        two.ended,
        one.held,
        two.held,
        ground (arith, two.sets, one.held, eq_iff p.desired_value (holds s'.world)),
      )
