-- ===== src/Controllers/Devices/Convergence.antt =====
-- One undisturbed call of the reconciler brings a device in sync.
use yurt_device_controller.Prelude.{
  String, ◌≡◌, ◌∙◌, ap, refl, arith, eq_iff, Bool, true, [], ◌∷◌, is_empty, Bool-cases, inl, inr,
}
use yurt_device_controller.Prelude.Io.{ok}
use yurt_device_controller.Api.{
  Device, DeviceStatus, Conditions, is_zero, device_finalizer, set_conditions,
  device_synced_condition, device_managing_condition,
}
use yurt_device_controller.EdgeX.Names.{edgex_object_name, get_edge_device_name}
use yurt_device_controller.Controllers.Kube.{done, info}
use yurt_device_controller.Controllers.Session.Synced.{
  Kind, Stored, Responsive, IsSynced, IsNew, patch-IsNew, write_status-IsSynced,
}
use yurt_device_controller.Controllers.Session.{Session, write_status, edge_fetched, edge_created}
use yurt_device_controller.Controllers.Devices.Reconciler.{DeviceReconciler}
use yurt_device_controller.Controllers.Devices.Lifecycle.{
  reconcile_delete_device, reconcile_create_device, adopt, add_device,
}
use yurt_device_controller.Controllers.Devices.Reconcile.{
  after_delete, synchronize, reconcile_device, reconcile_loaded, update_conditions,
}

-- What the reconciler asks of a device, and the calls that it makes for one.
abbrev pub kind : {W : Type 0} → DeviceReconciler W → (Device → Bool) → Kind W Device
kind r accepted = record {
  accepted = accepted;
  name = λ d. get_edge_device_name d edgex_object_name;
  metadata = λ d. d.metadata;
  is_alive = λ d. is_zero d.metadata.deletion_timestamp;
  is_synced = λ d. d.status.synced;
  client = r.client;
  get = r.device_cli.get;
  create = r.device_cli.create;
}

module _ {W : Type 0} (r : DeviceReconciler W) (name : String) (on_edge : W → Bool)
    (stored : W → Stored) (accepted : Device → Bool)
    (h : Responsive (kind r accepted) name on_edge stored) where
  -- Of one session, and of one object.
  abbrev pub IsSyncedHere : Session W Device → Type 0
  IsSyncedHere = IsSynced (kind r accepted) name on_edge stored

  abbrev pub IsNewHere : W → Device → Type 0
  IsNewHere = IsNew (kind r accepted) name on_edge stored

  add_finalizer_lem :
      (s : Session W Device)
      → IsNewHere s.world s.object
      → (s' : Session W Device) × (reconcile_delete_device r s ≡ (ok tt, s'))
        × IsNewHere s'.world s'.object
  unfolding reconcile_delete_device
  add_finalizer_lem s new = elim (Bool-cases (is_empty s.object.metadata.finalizers)) [
    | inl bare ↦
        let (s', e, new') =
          patch-IsNew (kind r accepted) name on_edge stored h (device_finalizer ∷ []) s new in
        (s', ground (arith, new.alive), new')
    | inr there ↦ (s, ground (arith, new.alive), new)
  ]

  adopt_lem :
      (st : DeviceStatus) (id : String) (s : Session W Device)
      → on_edge s.world ≡ true
      → (stored s.world).0 ≡ s.object.metadata
      → (s' : Session W Device) × (adopt r st id s ≡ (ok tt, s')) × IsSyncedHere s'
  unfolding adopt
  adopt_lem st id s present current =
      write_status-IsSynced (kind r accepted) name on_edge stored h _ refl present current

  update_conditions_lem :
      (s : Session W Device)
      → IsSyncedHere s
      → (s' : Session W Device) × (update_conditions r s ≡ (ok tt, s')) × IsSyncedHere s'
  unfolding update_conditions
  update_conditions_lem s sync = elim (Bool-cases s.object.spec.managed) [
    | inl managed ↦
        let (s', e, sync') = written s.object.status.conditions in (s', ground arith, sync')
    | inr unmanaged ↦
        let (s', e, sync') = written (
          r.conditions.mark_false device_managing_condition "this device is not managed by openyurt"
            info "" s.object.status.conditions) in
        (s', ground arith, sync')
  ]
    where
      written :
          (cs : Conditions)
          → let all =
              r.conditions.set_summary
                (device_synced_condition ∷ device_managing_condition ∷ [])
                cs in
            (s' : Session W Device) × (write_status r.client
                (record s { object = set_conditions s.object all })
              ≡ (ok tt, s'))
            × IsSyncedHere s'
      written cs =
          write_status-IsSynced (kind r accepted) name on_edge stored h _ sync.marked sync.present
            (ap (λ (x : Stored). x.0) sync.recorded)

  create_lem :
      (s : Session W Device)
      → IsNewHere s.world s.object
      → (s' : Session W Device) × (reconcile_create_device r s ≡ (ok tt, s')) × IsSyncedHere s'
  unfolding reconcile_create_device add_device
  create_lem s new = elim (Bool-cases (on_edge s.world)) [
    | inl there ↦
        let (e, w₁, found, present, kept) = h.edge.finds s.world there in
        let s₁ : Session W Device = record s { world = w₁; trace = edge_fetched name ∷ s.trace } in
        let (s', adopted, sync) =
          adopt_lem s.object.status e.status.edge_id s₁ present
            (ap (λ (x : Stored). x.0) kept ∙ new.current) in
        (s', ground (arith, new.named), sync)
    | inr missing ↦
        let (e, w₁, absent, says, away, kept) = h.edge.misses s.world missing in
        let (c, w₂, made, present, kept') =
          h.edge.creates s.object w₁ new.named new.acceptable away in
        let s₂ : Session W Device = record s {
          world = w₂;
          trace = edge_created s.object ∷ edge_fetched name ∷ s.trace;
        } in
        let (s', adopted, sync) =
          adopt_lem s.object.status c.status.edge_id s₂ present
            (ap (λ (x : Stored). x.0) (kept' ∙ kept) ∙ new.current) in
        (s', ground (arith, new.named), sync)
  ]

  reconcile_device_lem :
      (s : Session W Device)
      → IsNewHere s.world s.object
      → (s' : Session W Device) × (reconcile_device r s ≡ (ok done, s')) × IsSyncedHere s'
  unfolding reconcile_device after_delete synchronize
  reconcile_device_lem s new =
      let (s₁, guarded, new') = add_finalizer_lem s new in
      let (s₂, created, sync) = create_lem s₁ new' in
      (s₂, ground (arith, new'.alive, new'.unsynced), sync)

  -- Where the calls are answered, one call of the reconciler for a device that is alive and not synced
  -- returns, and afterwards the edge platform has the device, and the object and the resource in the
  -- cluster are synced, whether the platform had the device before or not.
  pub new_device_gets_in_sync :
      (w : W) (d : Device)
      → d.spec.node_pool ≡ r.node_pool
      → IsNewHere w d
      → (s : Session W Device) × (reconcile_loaded r w d ≡ (ok done, s)) × IsSyncedHere s
  unfolding reconcile_loaded
  new_device_gets_in_sync w d own new =
      let s : Session W Device = record { world = w; object = d; trace = [] } in
      let (s₁, handled, sync) = reconcile_device_lem s new in
      let (s₂, ended, sync') = update_conditions_lem s₁ sync in
      (s₂, ground (arith, eq_iff d.spec.node_pool r.node_pool), sync')
