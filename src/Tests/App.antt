-- ===== src/Tests/App.antt =====
-- The start of the program at concrete inputs.
use yurt_device_controller.Prelude.{
  String, ◌≡◌, ◌*◌, refl, arith, [], ◌∷◌, none, some, Option, inr, ne_of_test, ◌==◌, if◌then◌else◌,
}
use yurt_device_controller.Prelude.Io.{Error, ok, value, new_error}
use yurt_device_controller.App.Options.{
  YurtDeviceControllerOptions, new_options, validate_options, validate_addresses, sync_duration,
  validate_edge_platform_address,
}
use yurt_device_controller.App.Options.Laws.{validate_options_iff, sync_duration_exact}
use yurt_device_controller.App.NodePool.{Clientset, Pod, Node, get_node_pool}
use yurt_device_controller.App.NodePool.Laws.{get_node_pool_iff}
use yurt_device_controller.App.Components.{Outside}
use yurt_device_controller.App.Startup.{Manager, launch}
use yurt_device_controller.App.Startup.Laws.{launch_in_order}
use yurt_device_controller.App.Startup.Plan.{Runs, FollowsPlan}
use yurt_device_controller.App.Startup.Success.{Responsive, startup_order, launch_succeeds}
use yurt_device_controller.Tests.Samples.{Platform, cluster, conditions}
use yurt_device_controller.Tests.Services.{service_cluster}
use yurt_device_controller.Tests.Profiles.{profile_cluster}
use yurt_device_controller.Tests.Wire.{go, http, codec}

-- Only one text is no address.
abbrev split_host_port : String → Option Error
split_host_port addr =
    if addr == "metadata" then some (new_error "missing port in address") else none

validate_options_iff_example : validate_options split_host_port new_options ≡ none
validate_options_iff_example =
    (validate_options_iff split_host_port new_options).1 (inr refl, inr refl, inr refl)

sync_duration_exact_example : sync_duration 5 ≡ 5 * 1000000000
sync_duration_exact_example = ((sync_duration_exact 5).1 (omega arith)).0

abbrev hall_pod : Pod
hall_pod = record { node_name = "edge-1" }

abbrev hall_node : Node
hall_node = record { name = "edge-1"; labels = ("apps.openyurt.io/nodepool", "hangzhou") ∷ [] }

abbrev clientset : Clientset Platform
clientset = record {
  connect = λ p. (value tt, p);
  get_namespace = λ n p. (value tt, p);
  get_pod = λ namespace n p. (value hall_pod, p);
  get_node = λ n p. (value hall_node, p);
  read_file = λ n p. (value "controller-0\n", p);
}

get_node_pool_iff_example : get_node_pool clientset [] ≡ (ok "hangzhou", [])
get_node_pool_iff_example = (get_node_pool_iff clientset "hangzhou" [] []).1 (record {
  host = "controller-0\n";
  namespace = "controller-0\n";
  pod = hall_pod;
  node = hall_node;
  w₁ = [];
  w₂ = [];
  w₃ = [];
  w₄ = [];
  connected = refl;
  host_read = refl;
  namespace_read = refl;
  pod_told = refl;
  node_told = refl;
  labelled = refl;
})

abbrev manager : Manager Platform
manager = record {
  get_config = λ p. (value tt, p);
  new_manager = λ o p. (value tt, p);
  index_field = λ i path p. (value tt, p);
  complete = λ f c p. (value tt, p);
  add = λ c p. (value tt, p);
  add_healthz_check = λ n p. (value tt, p);
  add_readyz_check = λ n p. (value tt, p);
  start = λ p. (value tt, p);
}

abbrev outside : Outside Platform
outside = record {
  devices = cluster;
  device_services = service_cluster;
  device_profiles = profile_cluster;
  conditions = conditions;
  http = http 200;
  codec = codec;
  go = go;
}

manager-Responsive : Responsive manager clientset
manager-Responsive = record {
  get_config = λ p. (tt, p, refl);
  new_manager = λ o p. (tt, p, refl);
  index_field = λ i path p. (tt, p, refl);
  complete = λ f c p. (tt, p, refl);
  add = λ c p. (tt, p, refl);
  add_healthz_check = λ n p. (tt, p, refl);
  add_readyz_check = λ n p. (tt, p, refl);
  start = λ p. (tt, p, refl);
  connect = λ p. (tt, p, refl);
  get_namespace = λ n p. (tt, p, refl);
}

abbrev options : YurtDeviceControllerOptions
options = record new_options { nodepool = "hangzhou" }

launch_succeeds_example :
    let (r, l') = launch manager clientset outside options split_host_port [] in
    (r ≡ ok tt)
    × Runs manager clientset
        (startup_order manager clientset outside options manager-Responsive)
        []
        (ok tt)
        l'.world
unfolding validate_options validate_edge_platform_address validate_addresses
launch_succeeds_example =
    launch_succeeds manager clientset outside options manager-Responsive split_host_port [] refl
      (ne_of_test "hangzhou" "" refl)

-- The node pool is asked of the cluster.
launch_in_order_example :
    let (r, l') = launch manager clientset outside new_options split_host_port [] in
    FollowsPlan manager clientset outside new_options [] r l'.world
unfolding validate_options validate_edge_platform_address validate_addresses
launch_in_order_example =
    (launch_in_order manager clientset outside new_options split_host_port []).0 refl
