-- ===== src/Lib.antt =====
-- A client library for the Firezone REST API, and what makes its calls safe.
--
-- A caller makes a client with NewClient and calls an operation of a service. The operation checks
-- the IDs it is given (path.go), builds a request path and a JSON body (firezone.go, null.go,
-- postures.go), and hands them to `do` or `doList`, which send the request through the retry loop
-- (retry.go) and rawRequest (firezone.go) and decode what comes back. A response that is not 2xx is
-- an APIError (errors.go).
--
-- Path       path.go: checkID, buildPath, resolvePath. Url models the escaping of net/url.
-- Client     firezone.go: Client, the With options, checkBaseURL, NewClient.
-- Query      firezone.go: listOptionsToQuery, filterQuery; `url.Values.Encode` beside them, and a
--            reader of what it writes (Query/Read).
-- Request    firezone.go: rawRequest.
-- Response   errors.go: parseAPIError, parseRetryAfter, the tests on a status, and Error with
--            formatValidationErrors (Response/Text).
-- Retry      retry.go: the waits and requestWithRetry.
-- Null       null.go: Null, Set, Clear and the JSON methods.
-- Posture    postures.go: PostureNode, its constructors, constants and JSON methods.
-- Value      postures.go: the Value of a PostureNode, of type any, and its JSON.
-- PostureFields  posture_fields.go: the typed fields, a module for each type with a function for each
--            method, and isoDuration (PostureFields/Duration). PostureFields/Schema has the operators
--            and values of testdata/openapi.json with their limits, PostureFields/Reading a reader of
--            durations.
-- Genposture internal/genposture/main.go: the rows of the table in the API description
--            (Genposture/Table), the decoding of that description (Spec), load (Load), identFor and
--            render (Render), with a reader of the constants (Genposture/Rendered).
-- Api        firezone.go, pagination.go: wrapBody, do, doList, Page; Api/Pages has the envelope of a page.
-- Services   sites.go, gateways.go, groups.go, memberships.go, pool_members.go, actors.go, clients.go,
--            resources.go, policies.go, auth_providers.go, directories.go: one module each, with the
--            entities, the bodies and every operation. Services/Routes has the operations as values
--            and the table of their routes, against which Services/Routes/Sends compares them;
--            Services/Changes has what an update asks for, member by member.
-- Error      the errors, one constructor for each place that makes one.
-- Json       JSON values and how encoding/json decodes them into fields.
-- Decimal    strconv and fmt on decimal numbers.
-- Env        what the program calls and does not implement.
-- Witnesses  the theorems at concrete inputs.
--
-- State and effects. What lies outside the library is a state `W` and an `Env W` of functions on it:
-- the transport, the random source, the timer, and the texts of JSON. An operation is a function from
-- `W` to a result and the new `W`. Retry/Trace wraps an environment in one that keeps a log of the
-- requests and the waits; the theorems on what is sent hold for every environment.
--
-- Numbers. A byte is a number, a string a list of bytes; where it matters that each is below 256, a
-- theorem says so. A Go int or time.Duration is a ℤ whose sums and products wrap around at 64 bits
-- where the source computes them. The doubling backoff computes 2^attempt exactly, as math.Pow does
-- below 2^30.
--
-- Termination. The retry loop is a recursion on the rounds that the budget leaves, maxRetries + 1 of
-- them, which is the bound of the loop in the source, so that no fuel is needed. All else is
-- structural recursion.
--
-- Not modelled: the messages of errors other than an APIError, the default transport and the version
-- (firezone.go), the generated constants (posture_fields_gen.go), the generator's main and its
-- formatting by go/format (internal/genposture/main.go), and the test helpers
-- (internal/testutil/testutil.go). The printing of a time, of a network prefix and of a number of
-- seconds are parameters of the typed fields. A float64 is the number that encoding/json writes for
-- it, or not finite; the float64 nearest to a number is a function of the environment. What the API
-- checks beyond its schema (the syntax of regular expressions, versions and prefixes) is no part of
-- what a leaf conforms to.
-- Contexts are modelled where they act: a wait that is cut short, and a round trip that fails.
pub mod Common
pub mod Url
pub mod Value
pub mod Error
pub mod Path
pub mod Decimal
pub mod Json
pub mod Env
pub mod Client
pub mod Query
pub mod Response
pub mod Request
pub mod Retry
pub mod Null
pub mod Posture
pub mod Genposture
pub mod PostureFields
pub mod Api
pub mod Services
pub mod Witnesses
