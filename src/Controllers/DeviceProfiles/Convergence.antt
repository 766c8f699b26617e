-- ===== src/Controllers/DeviceProfiles/Convergence.antt =====
-- One undisturbed call of the reconciler brings a device profile in sync.
use yurt_device_controller.Prelude.{
  String, ◌≡◌, ◌∙◌, ap, refl, arith, eq_iff, Bool, true, [], ◌∷◌, is_empty, Bool-cases, inl, inr,
}
use yurt_device_controller.Prelude.Io.{ok}
use yurt_device_controller.Api.{DeviceProfile, is_zero, device_profile_finalizer}
use yurt_device_controller.EdgeX.Names.{edgex_object_name, get_edge_device_profile_name}
use yurt_device_controller.Controllers.Kube.{done}
use yurt_device_controller.Controllers.Session.Synced.{
  Kind, Stored, Responsive, IsSynced, IsNew, patch-IsNew, write_status-IsSynced,
}
use yurt_device_controller.Controllers.Session.{Session, edge_fetched, edge_created}
use yurt_device_controller.Controllers.DeviceProfiles.Reconcile.{
  DeviceProfileReconciler, reconcile_delete_device_profile, adopt_profile, add_profile,
  reconcile_create_device_profile, synchronize_profile, after_profile_delete, reconcile_loaded,
}

-- What the reconciler asks of a device profile, and the calls that it makes for one.
abbrev pub kind :
    {W : Type 0} → DeviceProfileReconciler W → (DeviceProfile → Bool) → Kind W DeviceProfile
kind r accepted = record {
  accepted = accepted;
  name = λ d. get_edge_device_profile_name d edgex_object_name;
  metadata = λ d. d.metadata;
  is_alive = λ d. is_zero d.metadata.deletion_timestamp;
  is_synced = λ d. d.status.synced;
  client = r.client;
  get = r.edge_client.get;
  create = r.edge_client.create;
}

module _ {W : Type 0} (r : DeviceProfileReconciler W) (name : String) (on_edge : W → Bool)
    (stored : W → Stored) (accepted : DeviceProfile → Bool)
    (h : Responsive (kind r accepted) name on_edge stored) where
  -- Of one session, and of one object.
  abbrev pub IsSyncedHere : Session W DeviceProfile → Type 0
  IsSyncedHere = IsSynced (kind r accepted) name on_edge stored

  abbrev pub IsNewHere : W → DeviceProfile → Type 0
  IsNewHere = IsNew (kind r accepted) name on_edge stored

  add_finalizer_lem :
      (s : Session W DeviceProfile)
      → IsNewHere s.world s.object
      → (s' : Session W DeviceProfile) × (reconcile_delete_device_profile r name s ≡ (ok tt, s'))
        × IsNewHere s'.world s'.object
  unfolding reconcile_delete_device_profile
  add_finalizer_lem s new = elim (Bool-cases (is_empty s.object.metadata.finalizers)) [
    | inl bare ↦
        let (s', e, new') =
          patch-IsNew (kind r accepted) name on_edge stored h (device_profile_finalizer ∷ []) s
            new in
        (s', ground (arith, new.alive), new')
    | inr there ↦ (s, ground (arith, new.alive), new)
  ]

  adopt_profile_lem :
      (id : String) (s : Session W DeviceProfile)
      → on_edge s.world ≡ true
      → (stored s.world).0 ≡ s.object.metadata
      → (s' : Session W DeviceProfile) × (adopt_profile r id s ≡ (ok tt, s')) × IsSyncedHere s'
  unfolding adopt_profile
  adopt_profile_lem id s present current =
      write_status-IsSynced (kind r accepted) name on_edge stored h _ refl present current

  create_lem :
      (s : Session W DeviceProfile)
      → IsNewHere s.world s.object
      → (s' : Session W DeviceProfile) × (reconcile_create_device_profile r name s ≡ (ok tt, s'))
        × IsSyncedHere s'
  unfolding reconcile_create_device_profile add_profile
  create_lem s new = elim (Bool-cases (on_edge s.world)) [
    | inl there ↦
        let (e, w₁, found, present, kept) = h.edge.finds s.world there in
        let s₁ : Session W DeviceProfile = record s {
          world = w₁;
          trace = edge_fetched name ∷ s.trace;
        } in
        let (s', adopted, sync) =
          adopt_profile_lem e.status.edge_id s₁ present
            (ap (λ (x : Stored). x.0) kept ∙ new.current) in
        (s', ground arith, sync)
    | inr missing ↦
        let (e, w₁, absent, says, away, kept) = h.edge.misses s.world missing in
        let (c, w₂, made, present, kept') =
          h.edge.creates s.object w₁ new.named new.acceptable away in
        let s₂ : Session W DeviceProfile = record s {
          world = w₂;
          trace = edge_created s.object ∷ edge_fetched name ∷ s.trace;
        } in
        let (s', adopted, sync) =
          adopt_profile_lem c.status.edge_id s₂ present
            (ap (λ (x : Stored). x.0) (kept' ∙ kept) ∙ new.current) in
        (s', ground arith, sync)
  ]

  -- Where the calls are answered, one call of the reconciler for a device profile that is alive
  -- and not synced returns, and afterwards the edge platform has the profile, and the object and
  -- the resource in the cluster are synced, whether the platform had the profile before or not.
  pub new_profile_gets_in_sync :
      (w : W) (d : DeviceProfile)
      → d.spec.node_pool ≡ r.node_pool
      → IsNewHere w d
      → (s : Session W DeviceProfile) × (reconcile_loaded r w d ≡ (ok done, s)) × IsSyncedHere s
  unfolding reconcile_loaded after_profile_delete synchronize_profile
  new_profile_gets_in_sync w d own new =
      let s : Session W DeviceProfile = record { world = w; object = d; trace = [] } in
      let (s₁, guarded, new') = add_finalizer_lem s new in
      let (s₂, created, sync) = create_lem s₁ new' in
      (
        s₂,
        ground (
          arith,
          eq_iff d.spec.node_pool r.node_pool,
          new.named,
          new'.alive,
          new'.unsynced,
          guarded,
          created,
        ),
        sync,
      )
