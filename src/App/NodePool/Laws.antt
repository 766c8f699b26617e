-- ===== src/App/NodePool/Laws.antt =====
-- Where the node pool comes from.
use yurt_device_controller.Prelude.{
  refl, ◌⊎◌, ◌↔◌, inl, inr, ◌∙◌, String, ◌<>◌, ◌≡◌, arith, none, some,
}
use yurt_device_controller.Prelude.Dict.{lookup}
use yurt_device_controller.Prelude.Io.{
  Outcome, Result, Call, Error, ok, fail, value, error, new_error,
}
use yurt_device_controller.App.NodePool.{
  Clientset, Pod, Node, get_node_pool, without_newlines, pod_hostname, pod_namespace,
  node_pool_label,
}

-- The pool that the label of a node tells, or the error.
abbrev pub labelled_pool : Node → Outcome String
labelled_pool node = elim (lookup node_pool_label node.labels) [
  | some pool ↦ ok pool
  | none ↦ fail (new_error ("node " <> (node.name <> " doesn't add to a nodepool")))
]

module _ {W : Type 0} (cs : Clientset W) where
  -- Where the calls are answered, the node pool is that of the label of the node of the pod whose
  -- name, without line ends, and whose namespace the two files tell; a node without the label is an
  -- error.
  pub get_node_pool-labelled_pool :
      (host namespace : String) (pod : Pod) (node : Node) (w w₁ w₂ w₃ w₄ w₅ : W)
      → cs.connect w ≡ (value tt, w₁)
      → cs.read_file pod_hostname w₁ ≡ (value host, w₂)
      → cs.read_file pod_namespace w₂ ≡ (value namespace, w₃)
      → cs.get_pod namespace (without_newlines host) w₃ ≡ (value pod, w₄)
      → cs.get_node pod.node_name w₄ ≡ (value node, w₅)
      → get_node_pool cs w ≡ (labelled_pool node, w₅)
  unfolding get_node_pool
  get_node_pool-labelled_pool host namespace pod node w w₁ w₂ w₃ w₄ w₅ connected h n p k =
      ground arith

  -- A call has a value or an error.
  answered :
      {A : Type 0} (c : Call W A) (w : W)
      → ((a : A) × (w' : W) × (c w ≡ (value a, w')))
        ⊎ ((e : Error) × (w' : W) × (c w ≡ (error e, w')))
  answered {A} c w = go (c w) refl
    where
      go :
          (q : Result A × W)
          → c w ≡ q
          → ((a : A) × (w' : W) × (c w ≡ (value a, w')))
            ⊎ ((e : Error) × (w' : W) × (c w ≡ (error e, w')))
      go (value a, w') e = inl (a, w', e)
      go (error x, w') e = inr (x, w', e)

  -- What has to be answered for a node pool: the pod of the name and the namespace that the two files
  -- tell runs on a node whose label names the pool.
  pub record RunsIn (pool : String) (w w' : W) : Type 0 where
    pub host : String
    pub namespace : String
    pub pod : Pod
    pub node : Node
    pub w₁ : W
    pub w₂ : W
    pub w₃ : W
    pub w₄ : W
    pub connected : cs.connect w ≡ (value tt, w₁)
    pub host_read : cs.read_file pod_hostname w₁ ≡ (value host, w₂)
    pub namespace_read : cs.read_file pod_namespace w₂ ≡ (value namespace, w₃)
    pub pod_told : cs.get_pod namespace (without_newlines host) w₃ ≡ (value pod, w₄)
    pub node_told : cs.get_node pod.node_name w₄ ≡ (value node, w')
    pub labelled : lookup node_pool_label node.labels ≡ some pool

  pool-RunsIn : (pool : String) (w w' : W) → get_node_pool cs w ≡ (ok pool, w') → RunsIn pool w w'
  unfolding get_node_pool
  pool-RunsIn pool w w' h = elim (answered cs.connect w) [
    | inr (e, w₁, c) ↦ absurd (ground arith)
    | inl (u, w₁, c) ↦ elim (answered (cs.read_file pod_hostname) w₁) [
      | inr (e, w₂, c₂) ↦ absurd (ground arith)
      | inl (host, w₂, c₂) ↦ elim (answered (cs.read_file pod_namespace) w₂) [
        | inr (e, w₃, c₃) ↦ absurd (ground arith)
        | inl (namespace, w₃, c₃) ↦
            elim (answered (cs.get_pod namespace (without_newlines host)) w₃) [
              | inr (e, w₄, c₄) ↦ absurd (ground arith)
              | inl (pod, w₄, c₄) ↦ elim (answered (cs.get_node pod.node_name) w₄) [
                | inr (e, w₅, c₅) ↦ absurd (ground arith)
                | inl (node, w₅, c₅) ↦ record {
                  host = host;
                  namespace = namespace;
                  pod = pod;
                  node = node;
                  w₁ = w₁;
                  w₂ = w₂;
                  w₃ = w₃;
                  w₄ = w₄;
                  connected = c;
                  host_read = c₂;
                  namespace_read = c₃;
                  pod_told = c₄;
                  node_told = ground arith;
                  labelled = ground arith;
                }
              ]
            ]
      ]
    ]
  ]

  -- `GetNodePool` tells a node pool exactly if all its calls are answered and the label of the node, on
  -- which the pod of the name in one file, without line ends, and of the namespace in the other runs,
  -- names that pool.
  pub get_node_pool_iff :
      (pool : String) (w w' : W) → (get_node_pool cs w ≡ (ok pool, w')) ↔ RunsIn pool w w'
  get_node_pool_iff pool w w' = (
    pool-RunsIn pool w w',
    λ n.
        get_node_pool-labelled_pool n.host n.namespace n.pod n.node w n.w₁ n.w₂ n.w₃ n.w₄ w'
          n.connected n.host_read n.namespace_read n.pod_told n.node_told
        ∙ ground (arith, n.labelled),
  )
