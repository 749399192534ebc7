-- ===== src/Lib.antt =====
-- Syn is an inference gateway: it authenticates a request, checks its limits and quotas, routes its
-- model to a backend, admits it to one of a bounded number of slots, and records what it used.
-- This library models the parts that decide, and proves what they promise.
--
-- Common: Boolean tests, lists, integers, Python's dict as an association list, JSON values.
-- Errors: app/core/errors.py, the exception classes and what a raise carries, with the result type
--   of code that may raise. The texts of messages are left out: no code reads them.
-- Policy: app/core/policy.py.
-- RateLimit: app/core/rate_limit.py. The state of the limiter is explicit, the clock is an argument.
-- Admission: app/core/admission.py. Admission.Semaphore is asyncio.Semaphore as the controller uses
--   it; Admission has a function for each stretch of code between two suspensions, and the relation
--   Step lets the event loop and the clients choose what runs next.
-- Backend, Principal: app/backends/base.py as the answers of a backend, app/core/principal.py.
-- Routing: app/routing. Config is the validation of config/routing.json once it is decoded,
--   ModelRegistry and BackendRegistry are the two registries, Router is the routing service and its
--   construction in app/routing/__init__.py.
-- Sse: app/core/sse.py, the parser of event streams. Sse.Format has what app/api/chat.py writes to a
--   stream.
-- Usage: app/services/usage.py. The table of usage records is the list of its rows, Usage.Records has
--   the rows and the tests of the queries, and a precheck takes the limiter's and the clock's state.
-- Chat: app/api/chat.py. Chat.Dispatch is create_chat_completion up to the call of a completion
--   handler; Chat.Conversion and Chat.Response have what the client is sent of a backend's chunks and
--   responses; the others say how the two handlers end and what they record, where their answers
--   from the admission and the backend are given, as is what the database stores of a number of
--   tokens, which are not negative in a row, or that it refuses it.
-- ApiKeys, Auth: app/core/api_keys.py and app/core/auth.py. The random parts of a key and the digest
--   are given; the table of keys is the list of its rows.
-- AdminAuth: app/core/admin_auth.py.
-- Admin: app/services/admin.py. The database is the lists of its rows, and Admin.Keys.auth_table is the
--   table that Auth reads. The ORM classes are not in the repository: the columns are those that the
--   code and the schema name, and what the database fills into a new row is given.
--   Admin.Routes, Admin.Policies, Admin.Runtime, Admin.Pages, Admin.Overview and
--   Admin.Metrics have routes of app/api/admin.py.
-- LlamaCpp: app/backends/llama_cpp.py. A call of the HTTP client is given by its outcome, a transport
--   error or a response, whose body is read before the call returns, also that of a stream;
--   LlamaCpp.Health, LlamaCpp.Completion and LlamaCpp.Stream have the three kinds of calls, with the
--   types of app/schemas/chat.py. Python's str and int, and json.loads, are given.
-- Observability: app/services/observability.py, the aggregates over the usage table that operators
--   read. Latency has the statistics of a column; fractions are exact where the code has
--   floating-point numbers, and a percentile is given in hundredths.
--
-- Gateway: app/core/request_id.py, app/core/request_size.py and the exception handlers of app/main.py,
--   around a route that answers or raises.
-- Settings: app/config.py, the validators.
-- Schemas: the text fields of the schemas in app/schemas and app/api/chat_schemas.py.
-- Health: app/api/health.py.
--
-- A chat request is authenticated (Auth), passes a precheck (Usage, which asks RateLimit and Policy),
-- is routed (Routing), is admitted (Admission), is answered by the backend, and is recorded (Chat,
-- Usage). Around all of this, it gets an identifier and its errors a body (Gateway).
--
-- Time is a natural number of clock ticks. The loop of Sse over its buffer runs on fuel, the length of
-- the buffer, which is enough since each round takes two characters off at least; the print of a number
-- in Common.Decimal runs on one more than the number, which has no more digits; every other recursion
-- is on a list or on a value of JSON. How a backend is built from its configuration, and
-- the decoders of JSON and UTF-8 texts, are arguments.
-- Not modelled: the HTTP framework with its CORS middleware, the failures of the database and of its
-- connection, the pages of app/api/admin.py that are HTML and its settings page, the
-- settings' reading of the environment,
-- the start and the end of the application, the command line, the migrations and the scripts.
pub mod Common
pub mod Errors
pub mod Policy
pub mod RateLimit
pub mod Admission
pub mod Backend
pub mod Principal
pub mod Routing
pub mod Sse
pub mod Usage
pub mod Chat
pub mod ApiKeys
pub mod Auth
pub mod AdminAuth
pub mod LlamaCpp
pub mod Admin
pub mod Observability
pub mod Gateway
pub mod Settings
pub mod Health
pub mod Schemas
