-- ===== src/Lib.antt =====
-- The operator that turns ToolGateways, ToolRoutes and Guards into the objects of agentgateway.
--
-- Three reconcilers of internal/controller are the program's parts. Each reads its object, computes
-- other objects, creates, patches or deletes them through the API client, and mirrors the outcome in
-- the status. They meet only in the cluster: a ToolRoute asks for the ToolGateway that it targets, a
-- ToolGateway for the Guard that it references, a Guard for its GuardrailProvider; and each watches
-- what it reads.
--
-- Prelude      names of the libraries, Boolean tests, lists, text
-- Authz        toolroute_authz.go: globs to regular expressions to CEL rules. Text is the list of its
--              code points. Regex and Cel hold readers of the two languages, as far as the rules use
--              them; Meaning compares what is read with the filter.
-- Kube         errors, results, the custom resources, unstructured content, and the API client. Env
--              is the client, an argument of every action: its operations are controller-runtime's,
--              and its world may change in any way between two calls. An action keeps a log of its
--              calls that write. Client/Logic says what an action returns and writes, Client/Passed
--              what it makes of an answer, Client/Willing what follows where these calls succeed, Client/Effect and Client/Stored which objects are in the
--              cluster behind an action. A `Store` holds what is documented of the calls there: it gives
--              the objects of a world, and says that a call writes its own object and no other, as where
--              nobody else writes in between.
-- Otel         otel.go: the OTEL variables and the tracing configuration
-- Resources    resources.go: the objects that are built for agentgateway
-- Ownership    class_ownership.go: the gateway of a route, and the gateways of this controller
-- Gateway      toolgateway_reconciler.go
-- Route        toolroute_reconciler.go
-- Adapter      guard_reconciler.go and guard_static_config.go
--              In these three, InPlace says what a run leaves in the cluster.
-- Wiring       `SetupWithManager` of the three: what a controller reconciles, owns and watches. Guarded runs
--              two reconcilers, one after the other, Jobs any number of them; Names and Meets say which names meet.
-- Operator     cmd/main.go: the flags, the options, and the calls of `main` that may fail, in their order
-- Tests        concrete runs
--
-- A function of the model has the name of the Go function in this library's spelling, so
-- `ensureHTTPRoute` is `ensure_http_route`. The body of a closure that is handed to `CreateOrPatch` is
-- `mutate_...`; the part of a function behind a read has a name of its own (`claims`, `external_target`).
--
-- Parameters, since their code is not in this repository: the API client and its helpers (Env),
-- `json.Unmarshal` of a header text, `url.Parse`, `yaml.Marshal`, SHA-256 and `%q` (Rendering), and what
-- the calls of `main` answer (Answers).
--
-- Fuel: the reader of CEL gets the length of the text and eight more, which reads every rule that is
-- generated; the decimal digits of a number get the number and one more, and each round divides by ten.
--
-- Numbers: the port of a ToolServer, an int32 of its API, is a natural number, handed on as it is.
--
-- Not modelled: the registration of the types in the scheme, the parsing and the texts of the flags, and
-- logging; the helpers of the tests; the chart, the manifests and the documents.
pub mod Prelude
pub mod Authz
pub mod Kube
pub mod Otel
pub mod Resources
pub mod Ownership
pub mod Gateway
pub mod Route
pub mod Adapter
pub mod Wiring
pub mod Operator
pub mod Tests
