-- ===== src/Lib.antt =====
-- Korea public data platform: the parts of the backend that decide.
--
-- The backend is a FastAPI application over public data APIs. Requests come in through an API
-- gateway, which counts them against rate limits and quotas and works out the API version that
-- they ask for; services are built by a dependency injection container, started and stopped by a
-- lifecycle manager, call the external APIs with retries, and answer lists page by page. Plugins are
-- sorted by their dependencies and shut down by a manager; commands, queries and events go over buses and
-- into a store; users are alerted, vote on requests for data, and classify what they ask for by codes.
--
-- RateLimit  app/core/api_integration/rate_limiting.py. RateLimit.Config has the configuration and
--   the results, RateLimit.Storage is MemoryRateLimitStorage, RateLimit.Algorithms the three
--   algorithms' check_limit, RateLimit.Quota is QuotaManager and RateLimit.Limiter RateLimiter with
--   its statistics. The other modules are about what the limiter lets through.
-- Version  app/shared/versioning.py. Version.Defs is APIVersion (ApiVersion here) and
--   require_version, Version.Registry VersionRegistry, Version.Extract VersionExtractor; Version.Order,
--   Version.Invariant, Version.Deprecation, Version.Greatest, Version.Latest,
--   Version.Named and Version.Extracted are about them.
-- Container  app/core/container.py. Container.Action is a monad of state and exceptions,
--   Container.Defs is DIContainer and ServiceBinding; Container.Free, Container.Good and
--   Container.Frame carry Container.Resolve, about one resolution, and Container.Reuse and
--   Container.Registered, about those that follow.
-- Retry  app/core/interfaces/retry_strategies.py and, in Retry.Failure,
--   app/shared/exceptions/api_exceptions.py. Retry.Strategy has the strategies, Retry.Executor is
--   RetryExecutor; Retry.Settles and Retry.Delays are about its runs.
-- Lifecycle  app/core/lifecycle.py: LifecycleManager in Lifecycle.Defs, then Lifecycle.Shutdown,
--   Lifecycle.Causes, Lifecycle.Startup and Lifecycle.Lifespan.
-- Pagination  app/shared/pagination.py: Pagination.Defs, Pagination.Pages about the pages, and
--   Pagination.Sorting.
-- Gateway  app/core/api_integration/gateway.py (ApiRequest is APIRequest): Gateway.Defs has the requests and
--   the state, Gateway.Routes the routes and their patterns, Gateway.Handlers the handlers of a
--   data source, Gateway.Process process_request, which asks RateLimit.Limiter; Gateway.Matching,
--   Gateway.Counts, Gateway.TextMethods and Gateway.Cached are about them.
-- EventStore  app/shared/events/event_store.py: EventStore.Defs is InMemoryEventStore,
--   EventStore.Tally its statistics; EventStore.Index, EventStore.Order and EventStore.Queries are
--   about the index, the sort and the answers.
-- Plugins  app/core/plugins/registry.py, with the metadata of app/core/plugins/base.py: Plugins.Defs is
--   PluginRegistry, Plugins.Sort its _topological_sort. Plugins.Steps, Plugins.Walk,
--   Plugins.WalkEnds, Plugins.Remaining and Plugins.Kahn carry Plugins.Sorted, about the sort;
--   Plugins.Dependents carries Plugins.Register, about registration. Plugins.Versions has
--   validate_dependencies and its test of versions, Plugins.Compatible and
--   Plugins.Satisfied are about them. Plugins.Manager has the deactivation and shutdown of PluginManager
--   of app/core/plugins/manager.py (shutdown_manager is its shutdown), Plugins.Activation its activation.
--   Plugins.Running and Plugins.Supported say what a change of a state does; they carry Plugins.Deactivate,
--   Plugins.Invariant and Plugins.Shutdown, and, with Plugins.Resolved, Plugins.Begun and Plugins.Grown,
--   Plugins.Activated.
-- Alerts  app/domains/alerts: Alerts.Defs is NotificationFrequencyManager of frequency_manager.py, with
--   the checks of repository.py and the preferences of models.py; Alerts.QuietHours, Alerts.Priority and
--   Alerts.Reminders are about it.
-- Cqrs  app/shared/cqrs/bus.py: Cqrs.Defs has the middleware and CommandBus, Cqrs.Commands is about its
--   executions, and Cqrs.Queries is QueryBus over an interface of its cache (execute_query is its execute).
-- EventBus  app/shared/events/domain_events.py: EventBus.Defs has the bus, EventBus.Delivery is about the
--   failed events that it records (handle_event_sync is its _handle_event_sync).
-- Classification  app/shared/classification: EditDistance is _simple_edit_distance of validators.py, Codes
--   the codes and results of enums.py and models.py, Business, Content and Unified are the validators.
--   Edits and Distance are about the distance, Suggestions and Near about what is suggested,
--   Refused and Verdicts about what is accepted.
-- DataRequests  app/domains/data_requests: Collection is the interface of MongoDB's collections, Memory a
--   list that is one; Defs and Service are the vote repository and the operations of service.py. Lookup
--   carries Counts, Voting and Deletion, about votes and deletions.
-- Base, Dict and Samples are shared: the library's names, lists, Python's dict, and Python's str.
--
-- A dict is an association list in the order of insertion. State is passed explicitly, and an
-- exception is a value that stands beside the state as it was written before the raise. Functions
-- of the source keep their names; __init__ is `init`.
--
-- Numbers. Instants and delays are whole microseconds (`second` is 1000000 of them), days are
-- counted, configured numbers are not negative, a retry's multiplier is whole, and quotients are exact
-- before they are rounded down: the rounding of floats is not modelled. The reading of the clock is an argument: `clock i`
-- is what the i-th call of time.time() in a check gives. Where the clock is set back between two
-- refills of a token bucket, the model gives an error of its own, `clock_back`.
--
-- Outside. Python's str, regular expressions and split, random.uniform, the constructors and
-- factories of services, the operation that is retried, and the functions and tasks of the
-- lifecycle are parameters. The type of a service is named by a text. Which fields pydantic refuses
-- is modelled for infinite numbers only (`inf`). A collection of MongoDB is an interface with laws, and a
-- plugin's initialize and cleanup come to what parameters say.
--
-- Fuel. `resolve` has it: the number of resolutions that may be nested. Each nested one is of
-- another registered type, so the number of bindings and one more is enough. The walk of the
-- topological sort has the number of its targets and of all dependencies in the registry, as each
-- is queued once; Kahn's loop has the number of plugins, each of which it takes once. The activation of a
-- plugin activates its dependencies, in an order in which these find theirs active, so 2 is enough.
--
-- Not modelled: the Redis storage of the limiter, the MongoDB event store, messages and logging, the
-- health monitor loop and the signal handlers, the async executor, which is the same loop, the filter
-- parameters of pagination, the gateway's average response time and default handlers, the loading of
-- plugins, and global instances. The rest of the backend (data sources, the other domains, scheduler,
-- infrastructure) is not modelled either: much of it is glue to FastAPI, MongoDB, Redis and Celery.
pub mod Base
pub mod Dict
pub mod RateLimit
pub mod Version
pub mod Container
pub mod Retry
pub mod Lifecycle
pub mod Pagination
pub mod Gateway
pub mod EventStore
pub mod Plugins
pub mod Alerts
pub mod Cqrs
pub mod EventBus
pub mod Classification
pub mod DataRequests
pub mod Samples
