-- ===== src/Controllers/Session/Synced.antt =====
-- Objects that become synced, over calls that are answered: what the reconcilers for devices,
-- device services and device profiles share.
use yurt_device_controller.Prelude.{String, ◌≡◌, ◌∙◌, ap, arith, Bool, true, false, List, ◌∷◌}
use yurt_device_controller.Prelude.Io.{Io, Error, ok, fail, value}
use yurt_device_controller.Api.{ObjectMeta}
use yurt_device_controller.Clients.Errors.{is_not_found_err}
use yurt_device_controller.Controllers.Kube.{KubeClient}
use yurt_device_controller.Controllers.Session.{
  Session, patch, write_status, status_written, patched,
}

-- A kind of object, with the calls made for it.
pub record Kind (W T : Type 0) : Type 0 where
  pub name : T → String
  pub metadata : T → ObjectMeta
  pub is_alive : T → Bool
  pub is_synced : T → Bool
  -- the edge platform takes such an object, by its name and its specification
  pub accepted : T → Bool
  pub client : KubeClient W T
  pub get : String → Io W T
  pub create : T → Io W T

-- What the cluster has of the resource that is considered: its metadata, with the resource version,
-- and whether it is synced.
abbrev pub Stored : Type 0
Stored = ObjectMeta × Bool

-- The cluster takes the writes to the resource from an object that has its present metadata; one
-- whose metadata are older may conflict. `on_edge`: the edge platform has the object.
pub record ClusterAnswers {W T : Type 0} (k : Kind W T) (on_edge : W → Bool) (stored : W → Stored)
    : Type 0 where
  pub patches :
      (d : T) (fs : List String) (w : W)
      → (stored w).0 ≡ k.metadata d
      → (d' : T) × (w' : W) × (k.client.patch_finalizers d fs w ≡ (value d', w'))
        × (k.is_alive d' ≡ k.is_alive d)
        × (k.name d' ≡ k.name d)
        × (k.is_synced d' ≡ k.is_synced d)
        × (k.accepted d' ≡ k.accepted d)
        × (on_edge w' ≡ on_edge w)
        × ((stored w').0 ≡ k.metadata d')
  pub writes :
      (d : T) (w : W)
      → (stored w).0 ≡ k.metadata d
      → (d' : T) × (w' : W) × (k.client.update_status d w ≡ (value d', w'))
        × (k.is_synced d' ≡ k.is_synced d)
        × (on_edge w' ≡ on_edge w)
        × (stored w' ≡ (k.metadata d', k.is_synced d))

-- The edge platform finds the object of the name where it has it, and takes the objects of that
-- name that it accepts where it has none. The resource in the cluster stays as it is.
pub record EdgeAnswers {W T : Type 0} (k : Kind W T) (name : String) (on_edge : W → Bool)
    (stored : W → Stored) : Type 0 where
  pub finds :
      (w : W)
      → on_edge w ≡ true
      → (e : T) × (w' : W) × (k.get name w ≡ (ok e, w'))
        × (on_edge w' ≡ true)
        × (stored w' ≡ stored w)
  pub misses :
      (w : W)
      → on_edge w ≡ false
      → (e : Error) × (w' : W) × (k.get name w ≡ (fail e, w'))
        × (is_not_found_err e ≡ true)
        × (on_edge w' ≡ false)
        × (stored w' ≡ stored w)
  pub creates :
      (d : T) (w : W)
      → k.name d ≡ name
      → k.accepted d ≡ true
      → on_edge w ≡ false
      → (c : T) × (w' : W) × (k.create d w ≡ (ok c, w'))
        × (on_edge w' ≡ true)
        × (stored w' ≡ stored w)

pub record Responsive {W T : Type 0} (k : Kind W T) (name : String) (on_edge : W → Bool)
    (stored : W → Stored) : Type 0 where
  pub cluster : ClusterAnswers k on_edge stored
  pub edge : EdgeAnswers k name on_edge stored

module _ {W T : Type 0} (k : Kind W T) (name : String) (on_edge : W → Bool)
    (stored : W → Stored) where
  -- The object is on the edge platform, and marked so in the session and in the cluster.
  pub record IsSynced (s : Session W T) : Type 0 where
    pub present : on_edge s.world ≡ true
    pub marked : k.is_synced s.object ≡ true
    pub recorded : stored s.world ≡ (k.metadata s.object, true)

  -- The object that is handled is the one of that name, alive and not synced, as the cluster has it.
  pub record IsNew (w : W) (d : T) : Type 0 where
    pub current : (stored w).0 ≡ k.metadata d
    pub named : k.name d ≡ name
    pub alive : k.is_alive d ≡ true
    pub acceptable : k.accepted d ≡ true
    pub unsynced : k.is_synced d ≡ false

  module _ (h : Responsive k name on_edge stored) where
    -- A new object stays new when its finalizers are patched.
    pub patch-IsNew :
        (fs : List String) (s : Session W T)
        → IsNew s.world s.object
        → (s' : Session W T) × (patch k.client fs s ≡ (ok tt, s')) × IsNew s'.world s'.object
    unfolding patch
    patch-IsNew fs s new =
        let (d', w', e, time, name', same, takes, kept, now) =
          h.cluster.patches s.object fs s.world new.current in
        (
          record { world = w'; object = d'; trace = patched fs ∷ s.trace },
          ground arith,
          record {
            current = now;
            named = name' ∙ new.named;
            alive = time ∙ new.alive;
            acceptable = takes ∙ new.acceptable;
            unsynced = same ∙ new.unsynced;
          },
        )

    -- A status that is written is recorded.
    pub write_status-IsSynced :
        (s : Session W T)
        → k.is_synced s.object ≡ true
        → on_edge s.world ≡ true
        → (stored s.world).0 ≡ k.metadata s.object
        → (s' : Session W T) × (write_status k.client s ≡ (ok tt, s')) × IsSynced s'
    unfolding write_status
    write_status-IsSynced s marked present current =
        let (d', w', e, same, kept, now) = h.cluster.writes s.object s.world current in
        (
          record { world = w'; object = d'; trace = status_written s.object ∷ s.trace },
          ground arith,
          record {
            present = kept ∙ present;
            marked = same ∙ marked;
            recorded = now ∙ ap (λ b. (k.metadata d', b)) marked;
          },
        )
