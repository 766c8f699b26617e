-- ===== src/Controllers/Devices/Orphans.antt =====
-- No device that the reconciler makes on the edge platform is left without a resource that has
-- finalizers, whatever fails on the way.
pub mod Histories
use yurt_device_controller.Prelude.{
  String, ◌≡◌, ◌∙◌, ◌⊎◌, inl, inr, refl, arith, eq_iff, Bool, true, false, not, List, [], ◌∷◌,
  is_empty, Bool-cases, ◌==◌,
}
use yurt_device_controller.Prelude.Io.{
  Io, Error, Outcome, ok, fail, panic, Result, value, error, call, attempt, ◌>>=◌,
}
use yurt_device_controller.Api.{Device, is_zero, device_finalizer}
use yurt_device_controller.Clients.Errors.{is_not_found_err}
use yurt_device_controller.EdgeX.Names.{edgex_object_name, get_edge_device_name}
use yurt_device_controller.Controllers.Session.{Session, edge_deleted, patch}
use yurt_device_controller.Controllers.Devices.Reconciler.{DeviceReconciler}
use yurt_device_controller.Controllers.Devices.Lifecycle.{reconcile_delete_device, remove_device}
use yurt_device_controller.Controllers.Devices.Reconcile.{
  after_delete, synchronize, reconcile_device, reconcile_loaded, update_conditions,
}
use yurt_device_controller.Controllers.Devices.Deletion.{is_gone}
use yurt_device_controller.Controllers.Devices.Worlds.{
  Unobserved, update_conditions-Stays, synchronize-Stays,
}

-- The one resource of the device whose name on the edge platform is `name`, among those of any other
-- devices. `on_edge`: the edge platform has the device. `guarded`: the cluster has the resource,
-- with finalizers.
pub record Guards {W : Type 0} (r : DeviceReconciler W) (name : String) (on_edge guarded : W → Bool)
    : Type 0 where
  pub edge : Unobserved r on_edge
  pub kube : Unobserved r guarded
  pub creates : (d : Device) (w : W) → guarded (r.device_cli.create d w).1 ≡ guarded w
  pub deletes : (w : W) → guarded (r.device_cli.delete name w).1 ≡ guarded w
  -- A deletion never brings the device back, and an answer that it is gone is true.
  pub removes : (w : W) → on_edge w ≡ false → on_edge (r.device_cli.delete name w).1 ≡ false
  pub gone :
      (w : W)
      → is_gone (r.device_cli.delete name w).0 ≡ true
      → on_edge (r.device_cli.delete name w).1 ≡ false
  -- A patch of the resource that is answered has its effect, and the answer does not take a time of
  -- deletion back; one that fails may have the effect. A patch of another resource changes neither.
  pub patches :
      (d : Device) (fs : List String) (w : W)
      → on_edge (r.client.patch_finalizers d fs w).1 ≡ on_edge w
  pub patched :
      (d d' : Device) (fs : List String) (w w' : W)
      → get_edge_device_name d edgex_object_name ≡ name
      → r.client.patch_finalizers d fs w ≡ (value d', w')
      → (guarded w' ≡ not (is_empty fs))
        × (is_zero d.metadata.deletion_timestamp ≡ false
            → is_zero d'.metadata.deletion_timestamp ≡ false)
  pub unpatched :
      (d : Device) (fs : List String) (w w' : W) (e : Error)
      → get_edge_device_name d edgex_object_name ≡ name
      → r.client.patch_finalizers d fs w ≡ (error e, w')
      → (guarded w' ≡ guarded w) ⊎ (guarded w' ≡ not (is_empty fs))

module _ {W : Type 0} (r : DeviceReconciler W) (name : String) (on_edge guarded : W → Bool)
    (h : Guards r name on_edge guarded) where
  -- What is on the edge platform has a guarded resource.
  abbrev pub Safe : W → Type 0
  Safe w = on_edge w ≡ true → guarded w ≡ true

  -- The device that is handled is the resource of that name as the cluster has it.
  pub record IsCurrent (d : Device) (w : W) : Type 0 where
    pub named : get_edge_device_name d edgex_object_name ≡ name
    pub seen : is_empty d.metadata.finalizers ≡ false → guarded w ≡ true

  patch_finalizers_lem :
      (fs : List String) (s : Session W Device)
      → get_edge_device_name s.object edgex_object_name ≡ name
      → let (q, s') = patch r.client fs s in
        (on_edge s'.world ≡ on_edge s.world)
        × (((q ≡ ok tt)
              × (guarded s'.world ≡ not (is_empty fs))
              × (is_zero s.object.metadata.deletion_timestamp ≡ false
                  → is_zero s'.object.metadata.deletion_timestamp ≡ false))
            ⊎ ((e : Error) × (q ≡ fail e)
                × ((guarded s'.world ≡ guarded s.world) ⊎ (guarded s'.world ≡ not (is_empty fs)))))
  unfolding patch
  patch_finalizers_lem fs s named = go (r.client.patch_finalizers s.object fs s.world) refl
    where
      go :
          (p : Result Device × W)
          → r.client.patch_finalizers s.object fs s.world ≡ p
          → let (q, s') = patch (record (r.client) { patch_finalizers = λ d f w. p }) fs s in
            (on_edge s'.world ≡ on_edge s.world)
            × (((q ≡ ok tt)
                  × (guarded s'.world ≡ not (is_empty fs))
                  × (is_zero s.object.metadata.deletion_timestamp ≡ false
                      → is_zero s'.object.metadata.deletion_timestamp ≡ false))
                ⊎ ((e : Error) × (q ≡ fail e)
                    × ((guarded s'.world ≡ guarded s.world)
                        ⊎ (guarded s'.world ≡ not (is_empty fs)))))
      go (value d', w') e =
          let both = h.patched s.object d' fs s.world w' named e in
          (ground (arith, h.patches s.object fs s.world), inl (refl, both.0, both.1))
      go (error x, w') e = (
        ground (arith, h.patches s.object fs s.world),
        inr (x, refl, h.unpatched s.object fs s.world w' x named e),
      )

  -- A device that is not being deleted is guarded before anything is done on the edge platform.
  alive_lem :
      (s : Session W Device)
      → IsCurrent s.object s.world
      → is_zero s.object.metadata.deletion_timestamp ≡ true
      → Safe s.world
      → let (q, s') = reconcile_delete_device r s in
        Safe s'.world × (q ≡ ok tt → guarded s'.world ≡ true)
  unfolding reconcile_delete_device
  alive_lem s current alive safe =
      ground (arith, patch_finalizers_lem (device_finalizer ∷ []) s current.named, current.seen)

  -- A device that is being deleted stays guarded until it is gone.
  remove_device_lem :
      (s : Session W Device)
      → get_edge_device_name s.object edgex_object_name ≡ name
      → is_zero s.object.metadata.deletion_timestamp ≡ false
      → Safe s.world
      → let (q, s') = remove_device r name s in
        Safe s'.world × (q ≡ ok tt → is_zero s'.object.metadata.deletion_timestamp ≡ false)
  unfolding remove_device
  remove_device_lem s named dying safe =
      let s' : Session W Device = record s {
        world = (r.device_cli.delete name s.world).1;
        trace = edge_deleted name ∷ s.trace;
      } in
      ground (
        arith,
        h.deletes s.world,
        h.removes s.world,
        h.gone s.world,
        patch_finalizers_lem [] s' named,
        Bool-cases (on_edge s.world),
      )

  dying_lem :
      (s : Session W Device)
      → IsCurrent s.object s.world
      → is_zero s.object.metadata.deletion_timestamp ≡ false
      → Safe s.world
      → let (q, s') = reconcile_delete_device r s in
        Safe s'.world × (q ≡ ok tt → is_zero s'.object.metadata.deletion_timestamp ≡ false)
  unfolding reconcile_delete_device
  dying_lem s current dying safe =
      rw (dying, current.named) (remove_device_lem s current.named dying safe)

  after_delete_lem :
      (q : Result (Unit {0})) (s : Session W Device)
      → Safe s.world
      → (q ≡ value tt
          → (guarded s.world ≡ true) ⊎ (is_zero s.object.metadata.deletion_timestamp ≡ false))
      → Safe (after_delete r q s).1.world
  unfolding after_delete
  after_delete_lem (error e) s safe known = ground (arith, safe)
  after_delete_lem (value u) s safe known =
      ground (arith, safe, known refl, synchronize-Stays r guarded h.kube h.creates s.object s)

  delete_first :
      (s : Session W Device)
      → IsCurrent s.object s.world
      → Safe s.world
      → let (q, s') = reconcile_delete_device r s in
        Safe s'.world
        × (q ≡ ok tt
            → (guarded s'.world ≡ true) ⊎ (is_zero s'.object.metadata.deletion_timestamp ≡ false))
  delete_first s current safe = elim (Bool-cases (is_zero s.object.metadata.deletion_timestamp)) [
    | inl alive ↦ let (safe', known) = alive_lem s current alive safe in (safe', λ e. inl (known e))
    | inr dying ↦ let (safe', known) = dying_lem s current dying safe in (safe', λ e. inr (known e))
  ]

  reconcile_device_lem :
      (s : Session W Device)
      → IsCurrent s.object s.world
      → Safe s.world
      → Safe (reconcile_device r s).1.world
  unfolding reconcile_device
  reconcile_device_lem s current safe =
      let (safe', known) = delete_first s current safe in
      go (reconcile_delete_device r s) safe' known
    where
      go :
          (q : Outcome (Unit {0}) × Session W Device)
          → Safe q.1.world
          → (q.0 ≡ ok tt
              → (guarded q.1.world ≡ true)
                ⊎ (is_zero q.1.object.metadata.deletion_timestamp ≡ false))
          → Safe ((attempt (λ _. q) >>= after_delete r) s).1.world
      go (ok u, s') safe' known = after_delete_lem (value tt) s' safe' (λ _. known refl)
      go (fail e, s') safe' known = after_delete_lem (error e) s' safe' (λ p. cc)
      go (panic, s') safe' known = safe'

  -- Whatever the calls answer: if what is on the edge platform had a guarded resource before the
  -- reconciler handled a device, it has one afterwards.
  pub reconcile-Safe :
      (w : W) (d : Device) → IsCurrent d w → Safe w → Safe (reconcile_loaded r w d).1.world
  unfolding reconcile_loaded
  reconcile-Safe w d current safe =
      let s : Session W Device = record { world = w; object = d; trace = [] } in
      let s' = (reconcile_device r s).1 in
      ground (
        arith,
        safe,
        reconcile_device_lem s current safe,
        update_conditions-Stays r on_edge h.edge s',
        update_conditions-Stays r guarded h.kube s',
      )
