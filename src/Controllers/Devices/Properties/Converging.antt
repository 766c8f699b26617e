-- ===== src/Controllers/Devices/Properties/Converging.antt =====
-- The loop over the desired properties on a platform that stores what is written: the values of
-- all properties, over two passes.
use yurt_device_controller.Prelude.{
  ◌≡◌, ◌≢◌, sym, subst, refl, arith, eq_iff, Bool, true, false, String, Option, none, some, List,
  [], ◌∷◌, ◌==◌, if◌then◌else◌,
}
use yurt_device_controller.Prelude.Dict.{Dict}
use yurt_device_controller.Prelude.Io.{Outcome, ok, fail, panic}
use yurt_device_controller.Api.{Device, DeviceStatus, DesiredPropertyState, ActualPropertyState}
use yurt_device_controller.Controllers.Session.{Session, any, is_property_set}
use yurt_device_controller.Controllers.Devices.Reconciler.{DeviceReconciler}
use yurt_device_controller.Controllers.Devices.Properties.{
  Progress, reconcile_property, read_property, use_property, set_property, reconcile_properties,
  reconcile_device_properties,
}
use yurt_device_controller.Controllers.Devices.Properties.Status.{IsFresh, HasDistinctNames}

-- The failed names after a part of the loop that returned.
abbrev pub failed_after : Outcome Progress → Option (List String)
failed_after (ok (st, names)) = some names
failed_after _ = none

-- Nothing is desired, or the desired value is what the platform holds of the property.
abbrev pub held : {W : Type 0} → (String → W → String) → DesiredPropertyState → W → Bool
held holds p w = if p.desired_value == "" then true else holds p.name w == p.desired_value

abbrev pub all_held : {W : Type 0} → (String → W → String) → Dict DesiredPropertyState → W → Bool
all_held holds [] w = true
all_held holds ((k, p) ∷ ps) w = if held holds p w then all_held holds ps w else false

module _ {W : Type 0} (r : DeviceReconciler W) (d : Device) (holds : String → W → String) where
  -- The property is read as the value that the platform holds, and setting it stores the desired
  -- value; neither changes what is held of other properties.
  pub record Stores (p : DesiredPropertyState) : Type 0 where
    pub reads :
        (w : W)
        → (a : ActualPropertyState) × (w' : W) × (r.device_cli.get_property_state p.name d w
            ≡ (ok (some a, none), w'))
          × (a.actual_value ≡ holds p.name w)
          × ((n : String) → holds n w' ≡ holds n w)
    pub sets :
        (w : W)
        → (w' : W) × (r.device_cli.update_property_state p.name d w ≡ (ok tt, w'))
          × (holds p.name w' ≡ p.desired_value)
          × ((n : String) → n ≢ p.name → holds n w' ≡ holds n w)

  abbrev pub StoresAll : Dict DesiredPropertyState → Type 0
  StoresAll [] = Unit
  StoresAll ((k, p) ∷ ps) = Stores p × StoresAll ps

  -- One property: it is held afterwards, others stay, and it is not set when it was held before.
  record IsStep (p : DesiredPropertyState) (progress : Progress) (s : Session W Device)
      (q : Outcome Progress × Session W Device) : Type 0 where
    pub ended : failed_after q.0 ≡ some progress.1
    pub own : held holds p q.1.world ≡ true
    pub others : (n : String) → n ≢ p.name → holds n q.1.world ≡ holds n s.world
    pub quiet :
        held holds p s.world ≡ true → any is_property_set q.1.trace ≡ any is_property_set s.trace

  reconcile_property-IsStep :
      (p : DesiredPropertyState) (progress : Progress) (s : Session W Device)
      → Stores p
      → IsStep p progress s (reconcile_property r d p progress s)
  unfolding reconcile_property read_property use_property set_property
  reconcile_property-IsStep p (st, names) s stores =
      let (a, w₁, read, shown, kept) = stores.reads s.world in
      let (w₂, set, stored, rest) = stores.sets w₁ in
      let same = eq_iff p.desired_value a.actual_value in
      let shows = eq_iff (holds p.name s.world) p.desired_value in
      record {
        ended = ground (arith, read, set);
        own = ground (
          arith,
          read,
          set,
          shown,
          kept p.name,
          stored,
          same,
          eq_iff (holds p.name w₁) p.desired_value,
          eq_iff (holds p.name w₂) p.desired_value,
        );
        others = λ n h. ground (arith, read, set, kept n, rest n h);
        quiet = λ h. ground (arith, read, set, shown, same, shows);
      }

  returned_from :
      (q : Outcome Progress) (names : List String)
      → failed_after q ≡ some names
      → (st : DeviceStatus) × (q ≡ ok (st, names))
  returned_from (ok (st, ns)) names h = (st, cc)
  returned_from (fail e) names h = cc
  returned_from panic names h = cc

  all_held-others :
      (p : DesiredPropertyState) (ps : Dict DesiredPropertyState) (w w' : W)
      → IsFresh p ps
      → ((n : String) → n ≢ p.name → holds n w' ≡ holds n w)
      → all_held holds ps w' ≡ all_held holds ps w
  all_held-others p [] w w' fresh others = refl
  all_held-others p ((k, q) ∷ ps) w w' fresh others =
      ground (arith, others q.name (λ e. fresh.0 (sym e)), all_held-others p ps w w' fresh.1 others)

  record IsPass (ps : Dict DesiredPropertyState) (progress : Progress) (s : Session W Device)
      (q : Outcome Progress × Session W Device) : Type 0 where
    pub ended : failed_after q.0 ≡ some progress.1
    pub own : all_held holds ps q.1.world ≡ true
    pub others :
        (p : DesiredPropertyState) → IsFresh p ps → holds p.name q.1.world ≡ holds p.name s.world
    pub quiet :
        all_held holds ps s.world ≡ true
        → any is_property_set q.1.trace ≡ any is_property_set s.trace

  reconcile_properties-IsPass :
      (ps : Dict DesiredPropertyState) (progress : Progress) (s : Session W Device)
      → StoresAll ps
      → HasDistinctNames ps
      → IsPass ps progress s (reconcile_properties r d ps progress s)
  unfolding reconcile_properties
  reconcile_properties-IsPass [] progress s stores distinct = record {
    ended = refl;
    own = refl;
    others = λ p h. refl;
    quiet = λ h. refl;
  }
  reconcile_properties-IsPass ((k, p) ∷ ps) progress s stores distinct =
      let step = reconcile_property-IsStep p progress s stores.0 in
      let s₁ : Session W Device = (reconcile_property r d p progress s).1 in
      let (st, e) = returned_from (reconcile_property r d p progress s).0 progress.1 step.ended in
      let pass = reconcile_properties-IsPass ps (st, progress.1) s₁ stores.1 distinct.1 in
      let stay = all_held-others p ps s.world s₁.world distinct.0 step.others in
      record {
        ended = ground (arith, e, pass.ended);
        own = ground (arith, e, pass.own, step.own, pass.others p distinct.0);
        others = λ q fresh. ground (arith, e, pass.others q fresh.1, step.others q.name fresh.0);
        quiet = λ h. ground (arith, e, h, stay, step.quiet, pass.quiet);
      }

module _ {W : Type 0} (r : DeviceReconciler W) (holds : String → W → String) where
  -- On a platform that stores the properties of distinct names that a device desires, two passes
  -- of reconcileDeviceProperties, the second on a device that desires the same: both return and
  -- no property fails, after each of them the platform holds every desired value, and the second
  -- sets no property.
  pub property_values_converge :
      (d d' : Device) (st st' : DeviceStatus) (w : W)
      → d'.spec.device_properties ≡ d.spec.device_properties
      → StoresAll r d holds d.spec.device_properties
      → StoresAll r d' holds d'.spec.device_properties
      → HasDistinctNames d.spec.device_properties
      → let first =
          reconcile_device_properties r d st (record { world = w; object = d; trace = [] }) in
        let second =
          reconcile_device_properties r d' st'
            (record { world = first.1.world; object = d'; trace = [] }) in
        (failed_after first.0 ≡ some [])
        × (failed_after second.0 ≡ some [])
        × (all_held holds d.spec.device_properties first.1.world ≡ true)
        × (all_held holds d.spec.device_properties second.1.world ≡ true)
        × (any is_property_set second.1.trace ≡ false)
  unfolding reconcile_device_properties
  property_values_converge d d' st st' w same stores stores' distinct =
      let s : Session W Device = record { world = w; object = d; trace = [] } in
      let one =
        reconcile_properties-IsPass r d holds d.spec.device_properties (st, []) s stores distinct in
      let s' : Session W Device = record {
        world = (reconcile_properties r d d.spec.device_properties (st, []) s).1.world;
        object = d';
        trace = [];
      } in
      let two =
        reconcile_properties-IsPass r d' holds d'.spec.device_properties (st', []) s' stores'
          (subst HasDistinctNames (sym same) distinct) in
      (
        one.ended,
        two.ended,
        one.own,
        subst
            (λ ps.
              all_held holds ps
                (reconcile_properties r d' d'.spec.device_properties (st', []) s').1.world
              ≡ true)
            same two.own,
        two.quiet (subst (λ ps. all_held holds ps s'.world ≡ true) (sym same) one.own),
      )
