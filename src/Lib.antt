-- ===== src/Lib.antt =====
-- yurt-device-controller keeps devices, device services and device profiles of an edge platform
-- (EdgeX Foundry) and the custom resources of a Kubernetes cluster (OpenYurt) in step. For each
-- kind, a controller brings changes of the resources to the edge platform, and a syncer brings
-- the objects of the edge platform to the cluster in periodic rounds. Both use a client that
-- speaks HTTP and JSON to the services core-metadata and core-command.
--
-- Prelude: texts, dictionaries (Go maps, Prelude/Dict), calls with errors, panics and state
--   (Prelude/Io) and those that do not panic (Prelude/Safe), and references (Prelude/Memory).
-- Api: the resources of apis/device.openyurt.io/v1alpha1; DeepCopy has the copies of
--   zz_generated.deepcopy.go, DeepCopy/Objects what goes through the interface runtime.Object.
-- Clients: pkg/clients/interface.go and errors.go.
-- EdgeX: pkg/clients/edgex-foundry. Dto has the messages of the platform, Names the functions
--   toKubeName and getEdgeXName and the GetEdge…Name functions of pkg/controllers/util/tools.go;
--   Devices, Services and Profiles have the translations of util.go, with theorems in their Laws;
--   DeviceClient is device_client.go, ServiceClient deviceservice_client.go and ProfileClient
--   deviceprofile_client.go. Their modules Safe are about panics, DeviceClient/Properties/Commands
--   and Keeping about a command service that stores what is written.
-- Controllers: Devices, DeviceServices and DeviceProfiles are the reconcilers of pkg/controllers
--   (device_controller.go, deviceservice_controller.go, deviceprofile_controller.go),
--   DeviceSyncer, DeviceServiceSyncer and DeviceProfileSyncer the syncers (device_syncer.go,
--   deviceservice_syncer.go, deviceprofile_syncer.go), Differences the comparison that the latter
--   two make in the same way, with the names that a round leaves in the cluster (Rounds, Lists),
--   and Predicate is predicate.go. Kube has what they call of controller-runtime and cluster-api,
--   Session the state of one call of a reconciler; Jobs is the work of all of them, in any order.
--   The children of a module are named for what they prove: Deletion, Creation, Outcomes and Setup
--   of a reconciler, Safe and Devices/Ends of panics, Convergence of one call that is answered,
--   OnEdgex of the same over a core-metadata service that keeps what is created, Devices/Orphans
--   of any sequence of calls, Devices/Properties/Settling and Converging of the values of
--   properties, Edgex of the client of EdgeX in that place; Convergence of a syncer of what a
--   round leaves, DeviceSyncer/Equivalence of its copy of the comparison, DeviceSyncer/Loop
--   of many rounds, DeviceSyncer/Locations of its panics.
-- App: cmd/yurt-device-controller. Options is options/options.go, Startup app/core.go with the
--   order of what `Run` does, Components the constructors of clients, syncers and controllers that
--   it calls; NodePool, Indexers and Helpers are GetNodePool, RegisterFieldIndexers and
--   IsInStringLst of pkg/controllers/util.
-- Tests: concrete objects, and theorems applied to them.
--
-- A call of the program is a function from a state of the world to an outcome (a value, an error or
-- a panic) and the state after it. Kubernetes, the HTTP client, JSON, the condition helpers of
-- cluster-api and what unicode and fmt do to characters and numbers are parameters. A reconciler
-- also changes the variable that holds its object, and records the calls that it makes, the latest
-- first; sequences of calls, rounds of the syncer and actions of others are steps from one state of
-- the world to another (Devices/Orphans/Histories). The calls of the start are compared with a plan
-- of them (App/Startup/Plan). Pointers that may be nil are options, and so is the map of reported
-- properties, since a write to a nil map panics. A map is a list of entries in the order in which
-- `range` visits it, which is any order. All loops are over such lists and need no fuel; the loops
-- of the syncers are given how often the timer fires. The objects of the resources are values,
-- since the code changes only those that a client gave it for its own, or deep copies; the copies
-- themselves are modelled on structs whose maps and slices stand behind a reference, which is nil
-- or an address with what is found there, and an allocation takes the next address.
--
-- Not modelled: logs, contexts and time: the loops of the syncers make as many rounds as the
-- timer is said to fire; the requests of other clients that run at the same time, except through
-- the world and the steps of others; the parsing of the command line and what the framework does
-- with what is registered; the registration of the scheme.
pub mod Prelude
pub mod Api
pub mod EdgeX
pub mod Clients
pub mod Controllers
pub mod App
mod Tests
