-- ===== src/Lib.antt =====
-- The MDAI operator, a Kubernetes operator in Go for the custom resources MdaiHub, MdaiCollector,
-- MdaiReplay, MdaiDal, MdaiObserver and MdaiIngress.
--
-- The admission webhooks of internal/webhook/v1 refuse resources before the API server stores them.
-- The controllers of internal/controller fetch a stored resource and run the operations of its
-- adapter one after the other until one of them stops or fails. The hub's adapter reads the values of
-- the variables in Valkey, writes them to ConfigMaps, restarts the collectors that read these and
-- writes the automations as triggers and commands, which rely on what the webhook has checked.
--
-- - Prelude and its children: the library names that are shared, Boolean tests, lists, texts and maps.
-- - Field: the field paths and field errors with which a webhook reports.
-- - Api: the custom resources of api/v1.
-- - Webhook: validators of internal/webhook/v1, with the validator of hubs, `mdaihub_webhook.go`, in
--   Webhook.Hub (validateVariables in Variables, validateWhen in Conditions, validateWebhookCall in
--   WebhookCall, validateAction and validateAutomations in Actions, Validate and its callers in
--   Updates), and the others in Webhook.Replay, Webhook.Collector, Webhook.Observer and
--   Webhook.Ingress.
-- - Controller.Operation: internal/controller/reconcile_operation.go and the loop of
--   ReconcileHandler. Controller.Lifecycle: the operations that every adapter repeats, from
--   ensureDeletionProcessed to ensureStatusSetToDone; Startup follows them over two reconciliations.
--   Controller.Events: internal/controller/event_config_transformer.go. Controller.Hub:
--   internal/controller/hub_adapter.go, with the PrometheusRule in Alerts, and in Requeue what
--   queues a hub again, from internal/controller/mdaihub_controller.go. Controller.Replay: the
--   finalizing of replays in internal/controller/mdaireplay_adapter.go, with the metric that it waits
--   for in Metrics and the collector's configuration in Config. Controller.Adapters: the life cycles
--   and ensureSynchronized of the collector, observer, DAL and replay adapters, and ensureStatusSetToDone
--   of the DAL in DalStatus. Controller.Collector: the
--   log routing of getMdaiCollectorConfig in internal/controller/mdaicollector_adapter.go.
--   Controller.Observer: getObserverCollectorConfig of internal/controller/observer.go.
--   Controller.ConfigMaps: the ConfigMaps of the adapters.
--   Controller.Desired: reconcileDesiredObjects of internal/controller/common.go.
-- - Builder: internal/builder, and the tolerations of `deployment.go` in Tolerations.
--   Controller.Workloads: the Deployments and Services of the four adapters, written with it; Access has
--   the collector's service account, role and binding.
-- - Manifests: internal/manifests, with `mutate.go` in Mutation, `manifestutils/labels.go` in Labels, and of
--   `collector` service.go in Ports, service_aws.go in Services, ingress.go and ingress_aws.go in
--   Rules; Filtering has the loops that delete from a slice. Controller.Ingress:
--   internal/controller/mdaiingress_controller.go, which makes and prunes these objects.
-- - Naming: internal/naming, with `triming.go` in Truncate, `dns.go` in Dns, `port.go` in Port and
--   `main.go` in Names.
-- - Examples: concrete inputs, on which the theorems are applied.
--
-- A Go function that returns an error is a function into an option, a sum or a verdict; code that
-- calls the API server is a function of a state, the resource that is held and the requests sent, into
-- its result and the next state. The API server, Valkey, JSON encoding and the parsers of PromQL, URLs
-- and times are not part of the repository and are parameters: records of functions, which may depend
-- on all requests sent before. A nil dereference or an index out of range, where a modelled function
-- can meet one, is a result of its own. The loops are structural recursions, so no fuel is used,
-- except for the digits of an index, whose fuel is the index plus one, and those of
-- an int32, whose fuel is ten, since an int32 has at most ten digits.
--
-- Not modelled: logging and tracing, how the managers are set up, the component parsers of
-- internal/components, a copy of those of the OpenTelemetry operator, generated code and the start of
-- the process. The order in which a Go map is visited is the order of an association list.
pub mod Api
pub mod Builder
pub mod Controller
pub mod Examples
pub mod Field
pub mod Manifests
pub mod Naming
pub mod Prelude
pub mod Webhook
