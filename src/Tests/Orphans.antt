-- ===== src/Tests/Orphans.antt =====
-- A world of many devices, of which one is followed: whether the edge platform has it, and whether its
-- resource has finalizers.
use yurt_device_controller.Prelude.{
  ◌≡◌, refl, arith, eq_iff, [], none, some, Bool, true, false, not, is_empty, ◌==◌, if◌then◌else◌,
}
use yurt_device_controller.Prelude.Io.{ok, fail, value, new_error}
use yurt_device_controller.Api.{Device}
use yurt_device_controller.Clients.Errors.{is_not_found_err}
use yurt_device_controller.Clients.Interface.{DeviceInterface}
use yurt_device_controller.EdgeX.Names.{edgex_object_name, get_edge_device_name}
use yurt_device_controller.Controllers.Kube.{KubeClient}
use yurt_device_controller.Controllers.Session.{patch, write_status}
use yurt_device_controller.Controllers.Devices.Reconciler.{DeviceReconciler}
use yurt_device_controller.Controllers.Devices.Lifecycle.{
  reconcile_delete_device, reconcile_create_device, adopt, add_device,
}
use yurt_device_controller.Controllers.Devices.Reconcile.{
  reconcile_loaded, reconcile_device, update_conditions, after_delete, synchronize,
}
use yurt_device_controller.Controllers.Devices.Orphans.{Guards, IsCurrent}
use yurt_device_controller.Controllers.Devices.Orphans.Histories.{
  begun, step, reconciled, round, no_orphans,
}
use yurt_device_controller.Controllers.DeviceSyncer.{
  DeviceSyncer, sync_round, get_all_devices, by_name, find_diff_device, apply_diff,
  sync_edge_to_kube, delete_devices, update_devices,
}
use yurt_device_controller.Controllers.DeviceSyncer.Worlds.{CallsKeep}
use yurt_device_controller.Tests.Samples.{
  sample_device, new_device, sample_metadata, conditions, reported_temperature,
}

-- On the edge platform, and guarded.
abbrev pub World : Type 0
World = Bool × Bool

abbrev on_edge : World → Bool
on_edge w = w.0

abbrev guarded : World → Bool
guarded w = w.1

abbrev pub small_edge : DeviceInterface World
small_edge = record {
  create = λ d w. (ok d, (true, w.1));
  delete = λ n w. (ok tt, (if n == "thermostat" then false else w.0, w.1));
  update = λ d w. (ok (some d), w);
  get =
      λ n w. (if w.0 then ok sample_device else fail (new_error "Device thermostat not found"), w);
  list = λ w. (ok [], w);
  get_property_state = λ n d w. (ok (some reported_temperature, none), w);
  update_property_state = λ n d w. (ok tt, w);
  list_properties_state = λ d w. (([], [], none), w);
}

abbrev pub small_cluster : KubeClient World Device
small_cluster = record {
  get = λ n w. (value sample_device, w);
  patch_finalizers = λ d fs w. (
    value (record d { metadata = record (d.metadata) { finalizers = fs } }),
    (
      w.0,
      if get_edge_device_name d edgex_object_name == "thermostat" then not (is_empty fs) else w.1,
    ),
  );
  update_status = λ d w. (value d, w);
  create = λ d w. (value tt, w);
  delete = λ d w. (value tt, w);
  list = λ pool namespace w. (value [], w);
}

abbrev small : DeviceReconciler World
small = record {
  client = small_cluster;
  conditions = conditions;
  device_cli = small_edge;
  node_pool = "hangzhou";
}

small-Guards : Guards small "thermostat" on_edge guarded
small-Guards = record {
  edge = record {
    writes = λ d w. refl;
    fetches = λ n w. refl;
    updates = λ d w. refl;
    reads = λ n d w. refl;
    sets = λ n d w. refl;
  };
  kube = record {
    writes = λ d w. refl;
    fetches = λ n w. refl;
    updates = λ d w. refl;
    reads = λ n d w. refl;
    sets = λ n d w. refl;
  };
  creates = λ d w. refl;
  deletes = λ w. refl;
  removes = λ w absent. refl;
  gone = λ w told. refl;
  patches = λ d fs w. refl;
  patched = λ d d' fs w w' named e.
      ground (arith, eq_iff (get_edge_device_name d edgex_object_name) "thermostat");
  unpatched = λ d fs w w' e named h. cc;
}

abbrev small_syncer : DeviceSyncer World
small_syncer = record {
  client = small_cluster;
  node_pool = "hangzhou";
  device_cli = small_edge;
  sync_period = 5;
  namespace = "plant";
}

small_syncer-CallsKeep : (observe : World → Bool) (b : Bool) → CallsKeep small_syncer observe b
small_syncer-CallsKeep observe b = record {
  lists_edge = λ w p. p;
  lists_kube = λ pool namespace w p. p;
  reads = λ d w p. p;
  creates = λ d w p. p;
  deletes = λ d w p. p;
  updates = λ d w p. p;
}

-- A device without finalizers, which nothing is known of on the edge platform.
abbrev bare_device : Device
bare_device = record new_device { metadata = record sample_metadata { finalizers = [] } }

bare_device-IsCurrent :
    IsCurrent small "thermostat" on_edge guarded small-Guards bare_device
      (sync_round small_syncer (false, false)).1
unfolding get_edge_device_name sync_round get_all_devices
bare_device-IsCurrent = record { named = refl; seen = λ h. cc }

-- A round of the syncer, and then a call of the reconciler.
no_orphans_example :
    guarded (reconcile_loaded small (sync_round small_syncer (false, false)).1 bare_device).1.world
    ≡ true
unfolding reconcile_loaded reconcile_device reconcile_delete_device patch after_delete synchronize
    reconcile_create_device add_device adopt update_conditions write_status is_not_found_err
    get_edge_device_name sync_round get_all_devices apply_diff update_devices find_diff_device
    by_name delete_devices sync_edge_to_kube
no_orphans_example =
    no_orphans small "thermostat" on_edge guarded small-Guards small_syncer
      (small_syncer-CallsKeep on_edge false) (small_syncer-CallsKeep guarded true)
      {start = (false, false)} refl
      (step (step begun (round (false, false)))
        (reconciled (sync_round small_syncer (false, false)).1 bare_device bare_device-IsCurrent))
      refl
