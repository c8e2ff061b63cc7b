-- ===== src/Lib.antt =====
-- Verification of naisd, the daemon that deploys applications to Kubernetes: it reads a deployment
-- request and the manifest (nais.yaml) of an application, resolves the resources that the application
-- uses, and creates or updates the objects of the application in the cluster; it also tells how far a
-- rollout has come, and deletes applications.
--
-- The parts, with the files that model them and the code (paths from the repository's root):
-- - App: api/app/spec.go and api/constant/constant.go, the names of an application.
-- - Request: api/naisrequest/deploy.go. `Deploy` is the request, `validate` is Validate.
-- - Manifest: the types of api/manifest.go. Manifest/Defaults is api/defaults.go, Manifest/Validation is
--   ValidateManifest with its checks, in their order, and Manifest/Download is GenerateManifest with
--   downloadManifest and fetchManifest.
-- - Fasit: the resources of api/fasit.go and the names of their variables; Fasit/Sync has what a
--   deployment reads from Fasit and writes to it, over any client of Fasit. Fasit/Payload and
--   Fasit/Client are the payloads and the client FasitClient: Client/Scoped reads resources,
--   Client/Calls has the other calls but those of Client/Balancer, load balancers and instances.
-- - AppError and Api: api/api.go. Api/Deployment is the handler `deploy`, from the authentication to the
--   answer, and Api/Handlers has `delete_application` and `deployment_status_handler`.
--   Api/Routes has the routes, `handler`, and what the web server writes.
-- - Event: api/deploymentevent.go and pkg/event. Sensu: api/sensuclient.go. Kafka: pkg/kafka, with the
--   queue of events. Daemon: naisd.go, the start of the daemon, and the daemon that sends its events to
--   Kafka.
-- - Proxy: proxyopts/proxyopts.go. Vault: internal/vault/vaultcontainer.go.
-- - Alerts: api/prometheus.go. Redis: api/redis.go. Status: api/deploymentstatus.go.
-- - Creator: api/resourcecreator.go. Creator/Meta has names and labels, Creator/Environment the
--   environment variables, Creator/Containers the containers, Creator/Network services and ingresses,
--   Creator/Storage secrets and autoscalers, Creator/Pod the pod and the deployment, Creator/Access the
--   reading and writing of objects, Creator/Accounts is api/serviceaccount.go and api/rolebinding.go, and Creator/Apply is
--   createOrUpdateK8sResources with the operation of each object.
-- - Cli: the choice of the daemon and the loop that waits. Cli/Shell has what the commands share, and
--   each command has its module: Cli/Deploy, Cli/Wait, Cli/Validate, Cli/Environment and Cli/Upload, the
--   last with the version. A command that reads its flags from a map takes the order in which it meets
--   them. A command goes on with a value or leaves with an exit code.
-- - Deleter: api/resourcedeleter.go, deleteK8sResouces with the deletion of each object.
-- - Kubernetes: the objects of the cluster, with the fields that the program reads or writes, and the
--   client of the cluster.
-- - Prelude: numbers, texts and their splitting, maps, outcomes, and rules on what an action keeps.
-- - Examples: the theorems at work, with a cluster in memory.
--
-- How the code is written down. A Go call leaves an `Outcome`: a value, an error with its text and its
-- "not found" flag, or a panic; nil dereferences and MustParse panic. Calls to the cluster are actions
-- `M c.State A` on the state of the cluster, and an error keeps the writes made before it; a handler
-- acts on the state of the cluster, of Fasit, and of the network with Sensu, the events and the clock. A
-- map is a list of entries whose order is open, as Go leaves it: the theorems hold for every order. A map or a
-- pointer that may be nil is an `Option`. `int` is an integer, and a conversion to int32 wraps.
-- Loops are structural recursion, so no fuel is needed, with three exceptions: the digits of a printed
-- number, where the fuel is above the number; the wait of the command line, a loop without an end of
-- its own, where the fuel counts the rounds and running out of it is a result of its own; and the loop
-- that sends events, which has no end either, where a number of rounds is run. Case mappings are those
-- of ASCII.
--
-- The functions that the source has once for each kind of object, all alike (getExistingService,
-- createOrUpdateServiceResource and so on), are one function over the kind of object. What
-- addTeamLabel, prefixAlertNames and substituteNamespaceVariables write through a slice they return
-- here: the manifest's rules are not read again after they are published.
--
-- Handlers and the loop that sends events to Kafka run at once: they are a relation, `Runs`, whose steps
-- are `send` and `producer_round`. In a whole deployment (`with_kafka`) a handler that meets a full queue
-- waits until the loop has taken an event. On the cluster and on Fasit, a handler runs alone.
--
-- Parameters are the code that is not in the repository: the cluster (`Cluster`, with what its API
-- documents in `Contract` and `Presence`), the web, YAML, mergo.Merge, ParseQuantity, url.Parse, the process
-- environment, viper, the login at Azure, json.Marshal, IsDNS1123Label, and for the client of Fasit
-- (`Net`) http, json, gabs and url.Values; goji, the socket of Sensu, sarama, the parsing of an image,
-- and for the command line (`Os`) the process environment, files, the terminal and http.
--
-- Not modelled: the parsing of flags and the choice of a command by cobra, ListenAndServe, logging and
-- metrics, generated code, and the helpers of tests.
pub mod Prelude
pub mod App
pub mod AppError
pub mod Api
pub mod Cli
pub mod Request
pub mod Kubernetes
pub mod Manifest
pub mod Fasit
pub mod Proxy
pub mod Vault
pub mod Alerts
pub mod Redis
pub mod Creator
pub mod Deleter
pub mod Status
pub mod Event
pub mod Sensu
pub mod Kafka
pub mod Daemon
pub mod Examples
