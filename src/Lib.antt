-- ===== src/Lib.antt =====
-- A model of the Conduit operator, a Kubernetes operator that runs Conduit pipelines.
--
-- A Conduit resource passes the admission webhook, which gives it defaults and validates it; the
-- controller then makes a configuration, a secret, a volume, a deployment and a service for it and
-- keeps the resource's conditions. The parts and their files:
--
--   api/v1alpha/condition.go                      Api/Condition, Api/ConditionSet
--   api/v1alpha/conduit_types.go                  Api/Types, Api/Status
--   pkg/conduit/plugin.go                         Plugin
--   pkg/conduit/version.go                        Flags
--   pkg/conduit/conduit_validator.go              Validator (Listing: connectorList, filterConnector;
--                                                 Connector: ValidateConnector; Processor:
--                                                 ValidateProcessor and pluginWASM)
--   internal/webhook/v1alpha/conduit_webhook.go   Webhook/Defaulter, Webhook/Validator (over any
--                                                 ValidatorService; Wired: over that of pkg/conduit)
--   cmd/operator/main.go                          Operator (Slices: Go's append; CommandLine: the
--                                                 flags; Operator itself: main, readMetadata and
--                                                 the registrations with the manager)
--   internal/testutil/conduit.go                  Testutil, the resources of the repository's tests
--   internal/controller/conduit_config.go         Config, Config/Registry
--   internal/controller/conduit_containers.go     Builder (commandBuilder), Containers
--   internal/controller/conduit_volumes.go        Volumes
--   internal/controller/conduit_controller.go     Controller (State: what the stages share; Objects:
--                                                 the config map, the secret, the volume, the
--                                                 service and UpdateStatus; Deployment: the
--                                                 deployment; Cluster: what is called; Reconcile:
--                                                 Reconcile and NewConduitReconciler)
--
-- A function keeps its name in snake case. A module under that of a part holds its theorems, and
-- Examples applies these to a concrete resource. Prelude and Strings hold the shared types and Go's
-- functions on texts.
--
-- System puts the webhook and the controller over one API server: a step is a creation or an update
-- that the webhook admits, a change of the metadata by the server, any step that leaves the resource,
-- or a call of Reconcile. Of the server it assumes IsServer: a read answers what is stored; a write
-- of the resource stores nothing, stores what the webhook's defaults made and its validation
-- admitted, with the status as it was, or takes the resource away; a write of the status leaves the
-- rest; and with each write of the reconciler, of another object too, come any number of writes of
-- others to the resource, so a call of Reconcile is interleaved with them. IsStatusStore (reads and
-- successful writes of the status are those of what is stored) and IsGuarded (an update that the
-- webhook refuses fails and stores nothing) are assumed where they are named, for calls that nothing
-- comes between.
--
-- How state and errors are modelled: a Go function that changes what a pointer refers to returns the
-- new value; a Go error is the err of a Result, or some message where nothing else is returned; a
-- call that can panic answers a Call; a nil pointer is none. Each reading of the clock is an
-- argument. A Go map is a list of pairs in the order of a range over it, and theorems that depend on
-- the order say so. The plugin registry and the temporary files of the validation are a state that
-- is passed on. Every loop is a recursion on the list that it ranges over, so there is no fuel.
--
-- Parameters, since their code is not part of the repository: the semver library (Semver, with the
-- documented meaning of the five constraints in use as the hypothesis IsDocumented), the objects of
-- the cluster (Config.Reader), net/url (Config.Registry.Urls), YAML and JSON, HTTP (Validator.Http),
-- temporary files (Validator.Processor.TempDir), the plugin registry (Validator.Processor.Plugins),
-- the connector SDK (Validator.Connector.Specs), the clients of registryFactory
-- (Webhook.Validator.Wired.Clients), resource.MustParse, the merge of two specifications
-- as JSON, and the client and ctrlutil (Controller.Cluster), whose calls may change a world; what
-- the cluster does in a call of CreateOrUpdate is Controller.State.Answer. What the operator's command
-- calls is Operator.Calls: the certificate watchers, the manager and the builders of its webhook and
-- controller, the file of the metadata, the cluster's configuration, and the flags of zap.
--
-- A call of Reconcile is one Run, which is done or has panicked: the five stages pass a state on, the
-- resource's status, the events and the world, each with its own error, and the status is saved
-- last. Two calls that run at the same time are not modelled: the manager queues the calls for one
-- resource.
--
-- A Go slice is a view of an array in a store that slices share (Operator/Slices), where aliasing
-- matters; elsewhere it is a list. slices.SortFunc, which is not stable, is a stable sort of any
-- arrangement (order) of the variables, which is a parameter.
--
-- Bounds: texts are ASCII; an int is a natural number. The capacity that append chooses for a new
-- array is a parameter. Not modelled: the registration of types, logging, how the package flag splits
-- the arguments, the mocks, and generated code.
pub mod Prelude
pub mod Strings
pub mod Api
pub mod Plugin
pub mod Semver
pub mod Flags
pub mod Kube
pub mod Builder
pub mod Containers
pub mod Volumes
pub mod Config
pub mod Webhook
pub mod System
pub mod Operator
pub mod Validator
pub mod Controller
pub mod Testutil
pub mod Examples
