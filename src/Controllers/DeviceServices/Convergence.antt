-- ===== src/Controllers/DeviceServices/Convergence.antt =====
-- One undisturbed call of the reconciler brings a device service in sync.
use yurt_device_controller.Prelude.{
  String, ◌≡◌, ◌∙◌, ap, refl, arith, eq_iff, Bool, true, false, [], ◌∷◌, is_empty, Bool-cases, inl,
  inr,
}
use yurt_device_controller.Prelude.Io.{ok}
use yurt_device_controller.Api.{
  DeviceService, Conditions, is_zero, device_service_finalizer, set_service_conditions,
  device_service_synced_condition, device_service_managing_condition,
}
use yurt_device_controller.EdgeX.Names.{edgex_object_name, get_edge_device_service_name}
use yurt_device_controller.Controllers.Kube.{done, info}
use yurt_device_controller.Controllers.Session.Synced.{
  Kind, Stored, Responsive, IsSynced, IsNew, patch-IsNew, write_status-IsSynced,
}
use yurt_device_controller.Controllers.Session.{Session, write_status, edge_fetched, edge_created}
use yurt_device_controller.Controllers.DeviceServices.Lifecycle.{
  DeviceServiceReconciler, reconcile_delete_device_service, reconcile_create_device_service,
  adopt_service, add_service,
}
use yurt_device_controller.Controllers.DeviceServices.Reconcile.{
  after_service_delete, synchronize_service, reconcile_service, reconcile_loaded,
  update_service_conditions,
}

-- What the reconciler asks of a device service, and the calls that it makes for one.
abbrev pub kind :
    {W : Type 0} → DeviceServiceReconciler W → (DeviceService → Bool) → Kind W DeviceService
kind r accepted = record {
  accepted = accepted;
  name = λ d. get_edge_device_service_name d edgex_object_name;
  metadata = λ d. d.metadata;
  is_alive = λ d. is_zero d.metadata.deletion_timestamp;
  is_synced = λ d. d.status.synced;
  client = r.client;
  get = r.device_service_cli.get;
  create = r.device_service_cli.create;
}

module _ {W : Type 0} (r : DeviceServiceReconciler W) (name : String) (on_edge : W → Bool)
    (stored : W → Stored) (accepted : DeviceService → Bool)
    (h : Responsive (kind r accepted) name on_edge stored) where
  -- Of one session, and of one object.
  abbrev pub IsSyncedHere : Session W DeviceService → Type 0
  IsSyncedHere = IsSynced (kind r accepted) name on_edge stored

  abbrev pub IsNewHere : W → DeviceService → Type 0
  IsNewHere = IsNew (kind r accepted) name on_edge stored

  add_finalizer_lem :
      (s : Session W DeviceService)
      → IsNewHere s.world s.object
      → (s' : Session W DeviceService) × (reconcile_delete_device_service r s ≡ (ok tt, s'))
        × IsNewHere s'.world s'.object
  unfolding reconcile_delete_device_service
  add_finalizer_lem s new = elim (Bool-cases (is_empty s.object.metadata.finalizers)) [
    | inl bare ↦
        let (s', e, new') =
          patch-IsNew (kind r accepted) name on_edge stored h (device_service_finalizer ∷ []) s
            new in
        (s', ground (arith, new.alive), new')
    | inr there ↦ (s, ground (arith, new.alive), new)
  ]

  adopt_service_lem :
      (id : String) (s : Session W DeviceService)
      → on_edge s.world ≡ true
      → (stored s.world).0 ≡ s.object.metadata
      → (s' : Session W DeviceService) × (adopt_service r id s ≡ (ok tt, s')) × IsSyncedHere s'
  unfolding adopt_service
  adopt_service_lem id s present current =
      write_status-IsSynced (kind r accepted) name on_edge stored h _ refl present current

  add_service_lem :
      (d : DeviceService) (s : Session W DeviceService)
      → get_edge_device_service_name d edgex_object_name ≡ name
      → accepted d ≡ true
      → on_edge s.world ≡ false
      → (stored s.world).0 ≡ s.object.metadata
      → (s' : Session W DeviceService) × (add_service r d s ≡ (ok tt, s')) × IsSyncedHere s'
  unfolding add_service
  add_service_lem d s named takes away current =
      let (c, w', made, present, kept) = h.edge.creates d s.world named takes away in
      let there : DeviceService = record (s.object) {
        status = record (s.object.status) { edge_id = c.status.edge_id; synced = true };
      } in
      let marked =
        set_service_conditions there
          (r.conditions.mark_true device_service_synced_condition there.status.conditions) in
      let s₁ : Session W DeviceService = record {
        world = w';
        object = marked;
        trace = edge_created d ∷ s.trace;
      } in
      let (s', written, sync) =
        write_status-IsSynced (kind r accepted) name on_edge stored h s₁ refl present
          (ap (λ (x : Stored). x.0) kept ∙ current) in
      (s', ground (arith, made, written), sync)

  update_service_conditions_lem :
      (s : Session W DeviceService)
      → IsSyncedHere s
      → (s' : Session W DeviceService) × (update_service_conditions r s ≡ (ok tt, s'))
        × IsSyncedHere s'
  unfolding update_service_conditions
  update_service_conditions_lem s sync = elim (Bool-cases s.object.spec.managed) [
    | inl managed ↦
        let (s', e, sync') = written s.object.status.conditions in (s', ground arith, sync')
    | inr unmanaged ↦
        let (s', e, sync') = written (
          r.conditions.mark_false device_service_managing_condition
            "this deviceService is not managed by openyurt" info "" s.object.status.conditions) in
        (s', ground arith, sync')
  ]
    where
      written :
          (cs : Conditions)
          → let all =
              r.conditions.set_summary
                (device_service_synced_condition ∷ device_service_managing_condition ∷ [])
                cs in
            (s' : Session W DeviceService) × (write_status r.client
                (record s { object = set_service_conditions s.object all })
              ≡ (ok tt, s'))
            × IsSyncedHere s'
      written cs =
          write_status-IsSynced (kind r accepted) name on_edge stored h _ sync.marked sync.present
            (ap (λ (x : Stored). x.0) sync.recorded)

  create_lem :
      (s : Session W DeviceService)
      → IsNewHere s.world s.object
      → (s' : Session W DeviceService) × (reconcile_create_device_service r s ≡ (ok tt, s'))
        × IsSyncedHere s'
  unfolding reconcile_create_device_service
  create_lem s new = elim (Bool-cases (on_edge s.world)) [
    | inl there ↦
        let (e, w₁, found, present, kept) = h.edge.finds s.world there in
        let s₁ : Session W DeviceService = record s {
          world = w₁;
          trace = edge_fetched name ∷ s.trace;
        } in
        let (s', adopted, sync) =
          adopt_service_lem e.status.edge_id s₁ present
            (ap (λ (x : Stored). x.0) kept ∙ new.current) in
        (s', ground (arith, new.named), sync)
    | inr missing ↦
        let (e, w₁, absent, says, away, kept) = h.edge.misses s.world missing in
        let s₁ : Session W DeviceService = record s {
          world = w₁;
          trace = edge_fetched name ∷ s.trace;
        } in
        let (s', added, sync) =
          add_service_lem s.object s₁ new.named new.acceptable away
            (ap (λ (x : Stored). x.0) kept ∙ new.current) in
        (s', ground (arith, new.named), sync)
  ]

  reconcile_service_lem :
      (s : Session W DeviceService)
      → IsNewHere s.world s.object
      → (s' : Session W DeviceService) × (reconcile_service r s ≡ (ok done, s')) × IsSyncedHere s'
  unfolding reconcile_service after_service_delete synchronize_service
  reconcile_service_lem s new =
      let (s₁, guarded, new') = add_finalizer_lem s new in
      let (s₂, created, sync) = create_lem s₁ new' in
      (s₂, ground (arith, new'.alive, new'.unsynced), sync)

  -- Where the calls are answered, one call of the reconciler for a device service that is alive
  -- and not synced returns, and afterwards the edge platform has the service, and the object and
  -- the resource in the cluster are synced, whether the platform had the service before or not.
  pub new_service_gets_in_sync :
      (w : W) (d : DeviceService)
      → d.spec.node_pool ≡ r.node_pool
      → IsNewHere w d
      → (s : Session W DeviceService) × (reconcile_loaded r w d ≡ (ok done, s)) × IsSyncedHere s
  unfolding reconcile_loaded
  new_service_gets_in_sync w d own new =
      let s : Session W DeviceService = record { world = w; object = d; trace = [] } in
      let (s₁, handled, sync) = reconcile_service_lem s new in
      let (s₂, ended, sync') = update_service_conditions_lem s₁ sync in
      (s₂, ground (arith, eq_iff d.spec.node_pool r.node_pool), sync')
