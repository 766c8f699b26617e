-- ===== src/Controllers/Session.antt =====
-- The state of one call of a reconciler: the world outside, the variable that holds the object,
-- which the code changes through a pointer, and the calls made so far, the latest first.
pub mod Keeps
pub mod Stays
pub mod Calls
pub mod Synced
pub mod Objects
use yurt_device_controller.Prelude.{String, Bool, true, false, List, [], ◌∷◌, if◌then◌else◌}
use yurt_device_controller.Prelude.Io.{Io, ok, call, ◌>>=◌}
use yurt_device_controller.Controllers.Kube.{KubeClient}

pub data Event (T : Type 0) : Type 0 where
  -- calls of the Kubernetes API: a patch of the finalizers, an update of the status
  patched : List String → Event T
  status_written : T → Event T
  -- calls of the edge platform
  edge_fetched edge_deleted : String → Event T
  edge_created edge_updated : T → Event T
  property_read property_set : String → Event T

pub record Session (W T : Type 0) : Type 0 where
  pub world : W
  pub object : T
  pub trace : List (Event T)

module _ {W T : Type 0} where
  abbrev pub request : {A : Type 0} → Event T → Io W A → Io (Session W T) A
  request e m s = let (r, w) = m s.world in (r, record s { world = w; trace = e ∷ s.trace })

  abbrev pub the_object : Io (Session W T) T
  the_object s = (ok s.object, s)

  abbrev pub assign : T → Io (Session W T) (Unit {0})
  assign d s = (ok tt, record s { object = d })

  abbrev pub modify : (T → T) → Io (Session W T) (Unit {0})
  modify f s = (ok tt, record s { object = f s.object })

  -- `r.Patch(ctx, d, client.RawPatch(types.MergePatchType, …))` with new finalizers
  unfoldable pub patch : KubeClient W T → List String → Io (Session W T) (Unit {0})
  patch kube finalizers = do
    d ← the_object
    d' ← request (patched finalizers) (call (kube.patch_finalizers d finalizers))
    assign d'

  -- `r.Status().Update(ctx, d)`
  unfoldable pub write_status : KubeClient W T → Io (Session W T) (Unit {0})
  write_status kube = do
    d ← the_object
    d' ← request (status_written d) (call (kube.update_status d))
    assign d'

-- Tests on the calls made.
abbrev pub any : {A : Type 0} → (A → Bool) → List A → Bool
any test [] = false
any test (x ∷ xs) = if test x then true else any test xs

module _ {T : Type 0} where
  -- The finalizers are cleared, after which the cluster may drop the object.
  abbrev pub is_clearing : Event T → Bool
  is_clearing (patched []) = true
  is_clearing _ = false

  -- The edge platform is told to change something.
  abbrev pub is_edge_write : Event T → Bool
  is_edge_write (edge_created x) = true
  is_edge_write (edge_deleted n) = true
  is_edge_write (edge_updated x) = true
  is_edge_write (property_set n) = true
  is_edge_write _ = false

  abbrev pub is_property_set : Event T → Bool
  is_property_set (property_set n) = true
  is_property_set _ = false

  abbrev pub is_creation : Event T → Bool
  is_creation (edge_created x) = true
  is_creation _ = false

  abbrev pub is_edge_deletion : Event T → Bool
  is_edge_deletion (edge_deleted n) = true
  is_edge_deletion _ = false

  abbrev pub is_status_write : Event T → Bool
  is_status_write (status_written x) = true
  is_status_write _ = false
