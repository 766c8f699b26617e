-- ===== src/App/NodePool.antt =====
-- `GetNodePool` (pkg/controllers/util/tools.go): the node pool of the node on which the controller
-- runs. The files of the container and the clientset of Kubernetes are parameters.
pub mod Laws
use Prim.Native.Char.{Char, code}
use Prim.Native.Nat.{compare, Ordering}
use yurt_device_controller.Prelude.{
  String, ◌<>◌, Option, none, some, if◌then◌else◌, Bool, true, false,
}
use yurt_device_controller.Prelude.Dict.{Dict, lookup}
use yurt_device_controller.Prelude.Io.{
  Io, Result, value, error, Call, new_error, attempt, call, pure, raise, ◌>>=◌,
}

-- What the program reads of a pod and of a node.
pub record Pod : Type 0 where
  pub node_name : String

pub record Node : Type 0 where
  pub name : String
  pub labels : Dict String

pub record Clientset (W : Type 0) : Type 0 where
  -- `kubernetes.NewForConfig`
  pub connect : Call W (Unit {0})
  pub get_namespace : String → Call W (Unit {0})
  -- in a namespace, of a name
  pub get_pod : String → String → Call W Pod
  pub get_node : String → Call W Node
  -- `ioutil.ReadFile`
  pub read_file : String → Call W String

abbrev pub pod_hostname : String
pod_hostname = "/etc/hostname"

abbrev pub pod_namespace : String
pod_namespace = "/var/run/secrets/kubernetes.io/serviceaccount/namespace"

abbrev pub node_pool_label : String
node_pool_label = "apps.openyurt.io/nodepool"

abbrev pub is_newline : Char → Bool
is_newline c = elim (compare (code c) 10) [ Ordering.eq ↦ true | _ ↦ false ]

-- `strings.Replace(s, "\n", "", -1)`
unfoldable pub without_newlines : String → String
without_newlines String.[] = String.[]
without_newlines (String.◌∷◌ c s) =
    let rest = without_newlines s in if is_newline c then rest else String.◌∷◌ c rest

-- `fmt.Errorf(text + "%v", err)` where a call fails
abbrev pub or_fail_with : {W A : Type 0} → String → Call W A → Io W A
or_fail_with text c = attempt (call c) >>= λ r. elim r [
  | value a ↦ pure a
  | error e ↦ raise (new_error (text <> e.message))
]

module _ {W : Type 0} (cs : Clientset W) where
  node_pool_of : Node → Io W String
  node_pool_of node = elim (lookup node_pool_label node.labels) [
    | some pool ↦ pure pool
    | none ↦ raise (new_error ("node " <> (node.name <> " doesn't add to a nodepool")))
  ]

  unfoldable pub get_node_pool : Io W String
  unfolding node_pool_of
  get_node_pool = do
    connected ← call cs.connect
    bn ← or_fail_with ("Read file " <> (pod_hostname <> " fail: ")) (cs.read_file pod_hostname)
    namespace ←
        or_fail_with ("Read file " <> (pod_namespace <> " fail: ")) (cs.read_file pod_namespace)
    let name = without_newlines bn
    pod ←
        or_fail_with ("not found pod " <> (namespace <> ("/" <> (name <> ": "))))
          (cs.get_pod namespace name)
    node ← or_fail_with ("not found node " <> (pod.node_name <> ": ")) (cs.get_node pod.node_name)
    node_pool_of node
