-- ===== src/Controllers/Devices/Properties/Answers.antt =====
-- When the loop over the desired properties returns.
use yurt_device_controller.Prelude.{
  not, String, ◌≡◌, refl, arith, Bool, true, false, Option, none, some, List, [], ◌∷◌,
}
use yurt_device_controller.Prelude.Dict.{Dict}
use yurt_device_controller.Prelude.Io.{Error, Outcome, ok, fail, panic}
use yurt_device_controller.Api.{Device, DeviceStatus, DesiredPropertyState, ActualPropertyState}
use yurt_device_controller.Clients.Errors.{is_not_found_err}
use yurt_device_controller.Controllers.Session.{Session}
use yurt_device_controller.Controllers.Devices.Reconciler.{DeviceReconciler}
use yurt_device_controller.Controllers.Devices.Properties.{
  set_property, use_property, read_property, Progress, reconcile_property, reconcile_properties,
}

-- The client of the edge platform answers: a read gives a state, or an error other than "not
-- found", and a write does not panic.
abbrev pub answers : Outcome (Option ActualPropertyState × Option Error) → Bool
answers (ok (some a, e)) = true
answers (ok (none, some e)) = not (is_not_found_err e)
answers _ = false

abbrev pub panics : Outcome (Unit {0}) → Bool
panics panic = true
panics _ = false

abbrev pub returns : Outcome Progress → Bool
returns (ok x) = true
returns _ = false

pub returned : (q : Outcome Progress) → returns q ≡ true → (x : Progress) × (q ≡ ok x)
returned (ok x) h = (x, refl)
returned (fail e) h = cc
returned panic h = cc

module _ {W : Type 0} (r : DeviceReconciler W) (d : Device) where
  pub record IsResponsive : Type 0 where
    pub reads : (n : String) (w : W) → answers (r.device_cli.get_property_state n d w).0 ≡ true
    pub sets : (n : String) (w : W) → panics (r.device_cli.update_property_state n d w).0 ≡ false

  reconcile_property-returns :
      (p : DesiredPropertyState) (st : DeviceStatus) (names : List String) (s : Session W Device)
      → IsResponsive
      → returns (reconcile_property r d p (st, names) s).0 ≡ true
  unfolding reconcile_property read_property use_property set_property
  reconcile_property-returns p st names s live = ground (
    arith,
    live.reads p.name s.world,
    live.sets p.name (r.device_cli.get_property_state p.name d s.world).1,
  )

  pub reconcile_properties-returns :
      (ps : Dict DesiredPropertyState) (st : DeviceStatus) (names : List String)
      (s : Session W Device)
      → IsResponsive
      → returns (reconcile_properties r d ps (st, names) s).0 ≡ true
  unfolding reconcile_properties
  reconcile_properties-returns [] st names s live = refl
  reconcile_properties-returns ((k, p) ∷ ps) st names s live =
      let (next, e) =
        returned (reconcile_property r d p (st, names) s).0
          (reconcile_property-returns p st names s live) in
      ground (
        arith,
        e,
        reconcile_properties-returns ps next.0 next.1 (reconcile_property r d p (st, names) s).1
            live,
      )
