-- ===== src/Lib.antt =====
-- The KEDA HTTP add-on scales HTTP workloads, down to zero and back. Its three processes:
--   * the interceptor (interceptor/) takes every request, routes it by host and path to an
--     HTTPScaledObject, counts it, waits until the workload has an active endpoint, and forwards it;
--   * the external scaler (scaler/) collects the counts of all interceptors and answers KEDA's
--     questions about them;
--   * the operator (operator/) gives each HTTPScaledObject a ScaledObject of KEDA, whose trigger
--     names the external scaler.
-- pkg/ has what they share: the queue counter and the routing table.
--
-- What models what:
--   * Prelude: Go's 64-bit integers as bit patterns, texts as lists of bytes, maps as association
--     lists, optional results and their total correctness.
--   * Api: operator/apis/http/v1alpha1, the custom resource.
--   * Queue.Buckets: pkg/queue/bucketing.go (`Record` is record_value); Queue.Average: `WindowAverage`;
--     Queue.Memory and Queue.Counts: pkg/queue/queue.go and queue_counts.go; Queue.Rpc: queue_rpc.go;
--     Queue.Float: float64.
--   * Routing.Key, Routing.Memory, Routing.Table, Routing.Signaler: key.go, tablememory.go and
--     table.go of pkg/routing, and pkg/util/signaler.go; Routing.Table.Refresh has the event handlers
--     and the refresh loop as steps of one relation, and Routing.Table.Start the group of `Start`.
--   * Scaler.Naming, Scaler.Pinger, Scaler.Handlers: naming.go, queue_pinger.go and handlers.go of
--     scaler/, with pkg/k8s/namespacedname.go and a part of pkg/k8s/endpoints.go; Scaler.Fetch: the
--     goroutines of fetchCounts as steps of one relation; Scaler.Health: the health checks of
--     scaler/main.go.
--   * K8s.Addresses, K8s.EndpointsCache: endpoints.go and endpoints_cache_informer.go of pkg/k8s.
--   * Net.Dial, Net.Backoff: pkg/net.
--   * Config.Env, Config.Leader: pkg/env/env.go and pkg/util/env_resolver.go; Config.Operator:
--     operator/controllers/http/config/config.go with a part of operator/main.go; Config.Serving:
--     interceptor/config/validate.go.
--   * Operator.Conditions, Operator.Finalizer, Operator.ScaledObject, Operator.Reconcile, with
--     the API's calls and answers in Operator.Client: the files of operator/controllers/http and
--     the predicate of operator/controllers/util, with pkg/k8s/scaledobject.go; Operator.Scales
--     joins the operator to the scaler.
--   * Interceptor.Counting (Balance and Churn have its goroutines as steps), Interceptor.Wait,
--     Interceptor.Routing, Interceptor.Forward: interceptor/middleware, interceptor/handler,
--     forward_wait_func.go and proxy_handlers.go; Interceptor.Observe: the middleware for metrics
--     and logs; Interceptor.Tls: addCert, getTLSConfig and the TLS settings of
--     runProxyServer in interceptor/main.go;
--     Interceptor.Proxy: the chain of handlers of its runProxyServer.
--   * Process: how the mains of scaler/main.go, interceptor/main.go and operator/main.go end, with
--     pkg/util/errors.go; Process.Server: `ServeContext` of pkg/http/server.go.
--   * Cluster: the interceptors and the scaler together, and the operator in Cluster.Scaling, no code
--     of its own.
--   * Tests: the theorems at concrete inputs.
-- They meet where the program's parts do: the routing table changes the queue counter, the counting
-- middleware increases and decreases it, the scaler reads what the counters report, and the
-- forwarding handler takes the context that the routing middleware makes, and the wait function what
-- the endpoints cache broadcasts.
--
-- How: a method that mutates its receiver returns the new state; a mutex makes it one step, and what
-- runs between two critical sections is another. A run-time panic is `none`, or a constructor of the
-- result type. An integer is its 64-bit pattern, with the wrap-around written out. A time is the
-- number of nanoseconds since Go's zero time, at or after the Unix epoch but for the zero time of an
-- unset field; a duration is not negative. The number of buckets is an exact quotient, as the
-- floating-point one is for windows below 2 ^ 53 ns. The loops of the buckets run for the number of
-- rounds that Go computes before them; no loop runs on fuel but the printing of a decimal number,
-- which has 20 digits at most. A Go map is visited in the order of the list.
--
-- Parameters: floating point (Queue.Float); JSON (Queue.Rpc); the radix tree, with the laws that
-- its package documents (Routing.Radix); the informers and their listers; the answers of the
-- Kubernetes API and of the other interceptors; the services of the cluster and the parsing of
-- URLs; the file system and X.509 (Interceptor.Tls); what the reverse proxy writes
-- (Interceptor.Proxy); the dialer and the sleeps of a backoff (Net.Dial); envconfig and the parsing
-- of durations (Config.Operator); the clock. The group of errgroup, whose documentation says that
-- it waits for all its functions and gives the first error, is written out where it is used.
--
-- Not modelled: tracing, the meters and the layout of log lines; the making of clients and
-- informers in the mains; generated code; the reverse proxy and its transport; the small wrappers
-- of pkg/util.
pub mod Prelude
pub mod Api
pub mod Queue
pub mod Routing
pub mod Scaler
pub mod Operator
pub mod Interceptor
pub mod K8s
pub mod Config
pub mod Net
pub mod Process
pub mod Cluster
pub mod Tests
