-- ===== src/Lib.antt =====
-- Models of the NGINX operator: a Kubernetes operator that turns the custom resources NginxServer,
-- NginxRoute and NginxUpstream into an NGINX configuration and the objects that run it, and a
-- sidecar that reloads NGINX when its configuration changes.
--
-- The parts and how they meet
-- - Api: the types of api/v1alpha1 (nginxserver_types.go, nginxroute_types.go,
--   nginxupstream_types.go) and the constants of conditions.go, one record for each struct, a field
--   for each field. Api.Zero has the zero values. A pointer is an Option; a Kubernetes value that
--   the program only copies (resources, volumes, affinity, ...) is an opaque text.
-- - Config.Validator: internal/config/validator.go. Report has ValidationResult with addError;
--   Server, Route and Upstream have ValidateNginxServer, ValidateNginxRoute and
--   ValidateNginxUpstream, check by check in the order of the source.
-- - Config.Data and Config.Templates: the structs that the templates read and the three templates of
--   internal/config/templates.go, as functions into texts.
-- - Config.Generator: internal/config/generator.go. New has NewGenerator, over a parser of
--   templates that is a parameter; Names has sanitizeName and the other text helpers; Main, Route
--   and Upstream have GenerateMainConfig, GenerateRouteConfig and GenerateUpstreamConfig; Full has
--   GenerateFullConfig and Hash.
-- - Nginx: internal/nginx/manager.go. Objects has the parts of the Kubernetes objects that are
--   filled in; Labels, Deployment, Service and ConfigMaps have the names, the labels and the four
--   Build functions.
-- - Reloader: cmd/reloader/main.go. Files has computeConfigHash, Check has checkAndReload, the rounds
--   of the loop and the first hash, Main has main with the flags, the ticks and the signals, Health
--   has the two endpoints.
-- - Controller: internal/controller. Conditions has setCondition, and Reports what the conditions
--   say afterwards; Server has the reconciler of nginxserver_controller.go (Objects:
--   reconcileConfigMap, reconcileDeployment, reconcileService and the two lists; Status:
--   updateStatus; Reconcile: Reconcile and handleDeletion); Route has nginxroute_controller.go;
--   Upstream has nginxupstream_controller.go (Endpoints: resolveServiceEndpoints); Trigger has
--   triggerServerReconcile, which both share; Wiring has what the SetupWithManager functions watch;
--   System has reconciliations of the three in any order, and Trace how each of them moves the
--   cluster. They call the validator, the generator and the functions of Nginx.
-- - Operator: cmd/operator/main.go, which sets the manager and the three controllers up; Version:
--   internal/version/version.go, which both programs print.
-- - Base: Boolean tests, lists, results, integers, texts, dictionaries and sorting that these share.
-- - Tests: runs at concrete inputs.
--
-- How code corresponds to definitions
-- - A function (T, error) is a Result; its error is the text of the error. A Go map is an
--   association list (Base.Dict), a range over a map is a walk over that list.
-- - A loop over a slice is structural recursion. The only fuel is that of the decimal digits of a
--   number (Base.Text): the number itself, and more fuel gives the same digits.
-- - An int32 or int64 that the program only compares or prints is an integer (Base.Int); the reload
--   counter, which is incremented, is kept modulo 2 ^ 64.
-- - sort.Slice is modelled by the insertion sort that it runs on at most twelve elements; what is
--   shown of the order (a sorted rearrangement) is what sort.Slice documents.
-- - SHA-256 is an argument `sha256_hex` of what uses it; nothing is assumed of it.
-- - The reloader's surroundings are data of a round: the visits of filepath.WalkDir, the outcome of
--   `nginx -t` and of `nginx -s reload`, the clock. Rounds follow one another, since one goroutine
--   runs the loop; the mutex only guards the readers of the health endpoint.
-- - A reconciliation is a Run (Controller.Run): from a state of the world it gives the next state, the
--   writes that it sent and its value. The world and what answers are a Cluster
--   (Controller.Cluster), a parameter: reads, writes that may fail, the clock, controllerutil and
--   equality.Semantic.DeepEqual. What is assumed of it stands in the hypotheses of the theorems that
--   need it: IsKeeping (Controller.Server.Reconcile.Realised: a write without an error is read back,
--   a Deployment with its specification completed by the server, and nobody else writes meanwhile),
--   IsReflexive (Controller.Server.Reconcile.Rest: DeepEqual takes a value for equal to itself),
--   Completes (Controller.Server.Reconcile.Settles: the API server fills in fields of a Deployment
--   that the wanted one leaves open, and DeepEqual sees it), KeepsFinalizers
--   (Controller.Server.Reconcile.Requeue: a finalizer that was added is read back), KeepsKeys
--   (Controller.Server.Objects.Desired: owner references keep the key of an object), NamesConfigMaps (Controller.Server.Reconcile.Watched: a read answers with
--   the key that was asked for) and ChangesAsSent (Controller.System: a ConfigMap changes only as it
--   is written).
-- - The start of the operator is a Run over its calls; the machine and the libraries, which answer
--   each call with an error or none, are a parameter. A duration is a number of seconds.
-- - Executing a template cannot fail for the data given, so the generators' error branches on it
--   are left out. `%q` takes every character from U+0080 on as printable.
--
-- Not modelled: the registration of the types with the scheme, generated deep copies, logging, the
-- HTTP server of the health endpoints, the manifests and the charts: they only call libraries.
pub mod Base
pub mod Api
pub mod Config
pub mod Nginx
pub mod Reloader
pub mod Controller
pub mod Version
pub mod Operator
mod Tests
