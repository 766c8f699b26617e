-- ===== src/Controllers/Kube.antt =====
-- What the controllers call outside the repository: the Kubernetes client of controller-runtime
-- and the condition helpers of cluster-api. Both are parameters of the model.
use yurt_device_controller.Prelude.{ℕ, String, Bool, List, true, false, if◌then◌else◌}
use yurt_device_controller.Prelude.Io.{
  Error, Result, value, error, Io, Call, pure, raise, is_not_found,
}
use yurt_device_controller.Api.{Conditions}

-- The client for objects of type `T`. Where a call answers with an object, the caller's variable
-- is set to it; a call that fails leaves the variable alone.
pub record KubeClient (W T : Type 0) : Type 0 where
  pub get : String → Call W T
  -- the merge patch of `metadata.finalizers`
  pub patch_finalizers : T → List String → Call W T
  pub update_status : T → Call W T
  pub create : T → Call W (Unit {0})
  pub delete : T → Call W (Unit {0})
  -- the objects of a node pool, by the field index, in a namespace
  pub list : String → String → Call W (List T)

-- The cluster has taken a write.
abbrev pub accepted : {A : Type 0} → Result A → Bool
accepted (value _) = true
accepted (error _) = false

pub data Severity : Type 0 where
  warning info : Severity

-- `conditions.MarkTrue`, `MarkFalse` (condition, reason, severity, message format) and
-- `SetSummary` with the conditions to be summed up.
pub record ConditionsUtil : Type 0 where
  pub mark_true : String → Conditions → Conditions
  pub mark_false : String → String → Severity → String → Conditions → Conditions
  pub set_summary : List String → Conditions → Conditions

-- `ctrl.Result`, its delay in seconds
pub record ReconcileResult : Type 0 where
  pub requeue : Bool
  pub requeue_after : ℕ

abbrev pub done : ReconcileResult
done = record { requeue = false; requeue_after = 0 }

abbrev pub requeue_now : ReconcileResult
requeue_now = record { requeue = true; requeue_after = 0 }

-- `return ctrl.Result{}, client.IgnoreNotFound(err)`
abbrev pub ignore_not_found : {S : Type 0} → Error → Io S ReconcileResult
ignore_not_found e = if is_not_found e then pure done else raise e
