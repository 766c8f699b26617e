-- ===== src/App.antt =====
-- cmd/yurt-device-controller: the options, the node pool, the field indexes, the parts that `Run`
-- puts together, and the start itself.
pub mod Options
pub mod NodePool
pub mod Indexers
pub mod Components
pub mod Startup
pub mod Helpers
