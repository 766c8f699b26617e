-- ===== src/Controllers/Devices/Properties/Values.antt =====
-- What the loop over the desired properties achieves (`Properties`).
use yurt_device_controller.Prelude.{
  ap, subst, eq_iff, String, ◌≡◌, ◌≢◌, arith, eq_refl, true, Option, none, some, List, [], ◌∷◌,
  is_some,
}
use yurt_device_controller.Prelude.Dict.{Dict}
use yurt_device_controller.Prelude.Io.{bind_ok, Error, Outcome, ok, panic}
use yurt_device_controller.Api.{Device, DeviceStatus, DesiredPropertyState, ActualPropertyState}
use yurt_device_controller.Clients.Errors.{is_not_found_err}
use yurt_device_controller.Controllers.Session.{Session}
use yurt_device_controller.Controllers.Devices.Reconciler.{DeviceReconciler}
use yurt_device_controller.Controllers.Devices.Properties.{
  set_property, use_property, read_property, overwrite, Progress, reconcile_property,
  reconcile_properties, reconcile_device_properties,
}
use yurt_device_controller.Controllers.Devices.Properties.Status.{
  settled, has_name-append_self, has_name-append, shows-overwrite_self, shows-overwrite_ne,
  enter-eq-overwrite, IsFresh, HasDistinctNames, AllSettled, AreSettled,
}
use yurt_device_controller.Controllers.Devices.Properties.Answers.{
  IsResponsive, returned, reconcile_properties-returns,
}

module _ {W : Type 0} (r : DeviceReconciler W) (d : Device) where
  set_property-settled :
      (p : DesiredPropertyState) (a : ActualPropertyState) (st : DeviceStatus) (names : List String)
      (s : Session W Device) (progress : Progress)
      → (set_property r d p a (overwrite p.name a st, names) s).0 ≡ ok progress
      → AreSettled p progress
  unfolding set_property
  set_property-settled p a st names s progress h =
      let st' = overwrite p.name a st in
      let fresh : ActualPropertyState = record {
        name = p.name;
        get_url = a.get_url;
        actual_value = p.desired_value;
      } in
      ground (
        arith,
        eq_iff p.desired_value a.actual_value,
        eq_iff a.actual_value p.desired_value,
        eq_refl p.desired_value,
        shows-overwrite_self p a st,
        shows-overwrite_self p fresh st',
        has_name-append_self p.name names,
      )

  set_property-settled_ne :
      (p q : DesiredPropertyState) (a : ActualPropertyState) (st : DeviceStatus)
      (names : List String) (s : Session W Device) (progress : Progress)
      → q.name ≢ p.name
      → settled q (st, names) ≡ true
      → (set_property r d p a (st, names) s).0 ≡ ok progress
      → settled q progress ≡ true
  unfolding set_property
  set_property-settled_ne p q a st names s progress ne old h =
      let fresh : ActualPropertyState = record {
        name = p.name;
        get_url = a.get_url;
        actual_value = p.desired_value;
      } in
      ground (arith, shows-overwrite_ne q p.name fresh st ne, has_name-append q.name p.name names)

  use_property-settled :
      (p : DesiredPropertyState) (actual : Option ActualPropertyState) (st : DeviceStatus)
      (names : List String) (s : Session W Device) (progress : Progress)
      → is_some st.device_properties ≡ true
      → (use_property r d p actual (st, names) s).0 ≡ ok progress
      → AreSettled p progress
  unfolding use_property
  use_property-settled p none st names s progress there h = cc
  use_property-settled p (some a) st names s progress there h =
      set_property-settled p a st names s progress (
        subst (λ x. (set_property r d p a (x, names) s).0 ≡ ok progress)
          (enter-eq-overwrite p.name a st there) h)

  read_property-settled :
      (p : DesiredPropertyState) (reply : Option ActualPropertyState × Option Error)
      (st : DeviceStatus) (names : List String) (s : Session W Device) (progress : Progress)
      → is_some st.device_properties ≡ true
      → (read_property r d p reply (st, names) s).0 ≡ ok progress
      → AreSettled p progress
  unfolding read_property
  read_property-settled p (actual, none) st names s progress there h =
      use_property-settled p actual st names s progress there h
  read_property-settled p (actual, some e) st names s progress there h = ground (
    arith,
    use_property-settled p actual st names s progress there,
    has_name-append_self p.name names,
  )

  -- One round of the loop settles its property, on a status with a map.
  reconcile_property-settled :
      (p : DesiredPropertyState) (st : DeviceStatus) (names : List String) (s : Session W Device)
      (progress : Progress)
      → is_some st.device_properties ≡ true
      → (reconcile_property r d p (st, names) s).0 ≡ ok progress
      → AreSettled p progress
  unfolding reconcile_property
  reconcile_property-settled p st names s progress there h = grind (arith, read_property-settled)

  reconcile_property-is_some :
      (p : DesiredPropertyState) (st : DeviceStatus) (names : List String) (s : Session W Device)
      (progress : Progress)
      → is_some st.device_properties ≡ true
      → (reconcile_property r d p (st, names) s).0 ≡ ok progress
      → is_some progress.0.device_properties ≡ true
  reconcile_property-is_some p st names s progress there h =
      (reconcile_property-settled p st names s progress there h).1

  -- It keeps what the other properties have come to.
  reconcile_property-settled_ne :
      (p q : DesiredPropertyState) (st : DeviceStatus) (names : List String) (s : Session W Device)
      (progress : Progress)
      → q.name ≢ p.name
      → is_some st.device_properties ≡ true
      → settled q (st, names) ≡ true
      → (reconcile_property r d p (st, names) s).0 ≡ ok progress
      → settled q progress ≡ true
  unfolding reconcile_property read_property use_property
  reconcile_property-settled_ne p q st names s progress ne there old h = grind (
    arith,
    set_property-settled_ne,
    enter-eq-overwrite,
    shows-overwrite_ne,
    has_name-append q.name p.name names,
  )

  reconcile_properties-settled_ne :
      (q : DesiredPropertyState) (ps : Dict DesiredPropertyState) (st : DeviceStatus)
      (names : List String) (s : Session W Device) (progress : Progress)
      → IsFresh q ps
      → is_some st.device_properties ≡ true
      → settled q (st, names) ≡ true
      → (reconcile_properties r d ps (st, names) s).0 ≡ ok progress
      → settled q progress ≡ true
  unfolding reconcile_properties
  reconcile_properties-settled_ne q [] st names s progress fresh there old h = ground arith
  reconcile_properties-settled_ne q ((k, p) ∷ ps) st names s progress fresh there old h =
      let (next, s', round, rest) =
        bind_ok (reconcile_property r d p (st, names)) (reconcile_properties r d ps) s h in
      let returned = ap (λ (x : Outcome Progress × Session W Device). x.0) round in
      reconcile_properties-settled_ne q ps next.0 next.1 s' progress fresh.1
        (reconcile_property-is_some p st names s next there returned)
        (reconcile_property-settled_ne p q st names s next fresh.0 there old returned) rest

  all_settled :
      (ps : Dict DesiredPropertyState) (st : DeviceStatus) (names : List String)
      (s : Session W Device) (progress : Progress)
      → HasDistinctNames ps
      → is_some st.device_properties ≡ true
      → (reconcile_properties r d ps (st, names) s).0 ≡ ok progress
      → AllSettled ps progress
  unfolding reconcile_properties
  all_settled [] st names s progress distinct there h = tt
  all_settled ((k, p) ∷ ps) st names s progress distinct there h =
      let (next, s', round, rest) =
        bind_ok (reconcile_property r d p (st, names)) (reconcile_properties r d ps) s h in
      let returned = ap (λ (x : Outcome Progress × Session W Device). x.0) round in
      let still = reconcile_property-is_some p st names s next there returned in
      (
        reconcile_properties-settled_ne p ps next.0 next.1 s' progress distinct.0 still
            (reconcile_property-settled p st names s next there returned).0 rest,
        all_settled ps next.0 next.1 s' progress distinct.1 still rest,
      )

  -- With a client that answers, and on a status that has a map of reported properties, the loop
  -- returns; then every property with a desired value is among the failed ones or has that value
  -- in the new status, provided that no two desired properties have one name.
  pub reconcile_device_properties-AllSettled :
      (st : DeviceStatus) (s : Session W Device)
      → IsResponsive r d
      → HasDistinctNames d.spec.device_properties
      → is_some st.device_properties ≡ true
      → (progress : Progress) × ((reconcile_device_properties r d st s).0 ≡ ok progress)
        × AllSettled d.spec.device_properties progress
  unfolding reconcile_device_properties
  reconcile_device_properties-AllSettled st s live distinct there =
      let ps = d.spec.device_properties in
      let (progress, e) =
        returned (reconcile_properties r d ps (st, []) s).0
          (reconcile_properties-returns r d ps st [] s live) in
      (progress, e, all_settled ps st [] s progress distinct there e)

  -- Where the status has no map yet, a property that already has its desired value on the edge
  -- platform is neither entered nor failed: the map that is made for it stays empty.
  pub first_value_lost :
      (p : DesiredPropertyState) (st : DeviceStatus) (names : List String) (s : Session W Device)
      (a : ActualPropertyState) (w : W)
      → st.device_properties ≡ none
      → p.desired_value ≢ ""
      → r.device_cli.get_property_state p.name d s.world ≡ (ok (some a, none), w)
      → a.actual_value ≡ p.desired_value
      → (reconcile_property r d p (st, names) s).0
        ≡ ok (record st { device_properties = some [] }, names)
  unfolding reconcile_property read_property use_property set_property
  first_value_lost p st names s a w unset desired reply same =
      ground (arith, eq_iff p.desired_value "", eq_iff p.desired_value a.actual_value)

  -- A nil state with an error that says "not found" crashes the loop.
  pub nil_state_panics :
      (p : DesiredPropertyState) (st : DeviceStatus) (names : List String) (s : Session W Device)
      (e : Error) (w : W)
      → p.desired_value ≢ ""
      → r.device_cli.get_property_state p.name d s.world ≡ (ok (none, some e), w)
      → is_not_found_err e ≡ true
      → (reconcile_property r d p (st, names) s).0 ≡ panic
  unfolding reconcile_property read_property use_property
  nil_state_panics p st names s e w wanted reply missing = ground (arith, eq_iff p.desired_value "")
