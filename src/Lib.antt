-- ===== src/Lib.antt =====
-- A model of the networking core of gosub-sonar, the fetching library of the Gosub browser, and
-- the theorems that make it correct.
--
-- The library fetches URLs for a browser. A request waits for connection slots (src/net/slots.rs), is
-- checked against the port, HSTS, mixed content and CORS rules, gets its Referer and Sec-Fetch
-- headers and the credentials known for the server, is looked up in the HTTP cache, and goes out,
-- perhaps through a proxy; each redirect repeats this, and an attempt that fails may be retried. The
-- requests that wait for one fetch share its events (src/net/lifecycle.rs) and its body
-- (src/net/shared_body.rs). The modules that decide are modelled here; those that move bytes are not.
--
-- Which file models which part (paths from the root of the repository):
--   Slots            src/net/slots.rs: `SlotPool` and its lock's `State`; `enqueue`, `release`,
--                    `observe` and the loop of `grant` return the new state and the slots handed out
--   Slots.World      the pool under any sequence of operations, as a step relation
--   Body             src/net/shared_body.rs: the state behind the lock, pushing in its steps (`begin`
--                    or `begun`, `deliver`, `end_push`), subscribing, ending, a subscriber's stream,
--                    and the turns of the task of `from_reader` (`pump`)
--   Body.World       a body under any interleaving of its one producer's pushes, of ends, subscribers,
--                    polls and drops, as a step relation
--   Retry            src/net/retry.rs: the policy, the backoff, `Retry-After`, what of an attempt's
--                    events the observer sees, and the loop of attempts
--   Lifecycle        src/net/lifecycle.rs: one request's events, and the requests on a shared
--                    fetch; each event is one step, though its two halves take no lock
--   Auth             src/net/auth.rs: challenges, credentials and their header, the store, and the
--                    credentials that are sent before any challenge
--   Proxy            src/net/proxy.rs: rules, bypass lists, the environment; Proxy.Routes is the
--                    choice of a rule for a request and the credentials it sends
--   Chain            src/net/fetch/chain.rs: the state of a chain of redirects and `follow_redirect`, which
--                    returns the next state, the events and the cookies for the jar
--   Hsts             src/net/hsts.rs: the header's grammar, the store, recording and matching
--   Cors             src/net/cors.rs and src/net/cors/preflight.rs: safelists, the CORS check,
--                    preflights and their cache, the headers that scripts may read
--   Cache            src/net/cache.rs: directives, entries, freshness, `decide`, `is_storable`, `304`s;
--                    the in-memory store and its budget; `split_outside_quotes` of src/net/utils.rs
--   MixedContent, Referrer, Ports, FetchMetadata
--                    src/net/mixed_content.rs, referrer.rs, port_blocking.rs and fetch_metadata.rs
--   Web              what the crates `http`, `url` and `tokio` (channels) provide, as records of
--                    operations and laws; the errors of src/net/types.rs, transport.rs and tls.rs and
--                    the events of src/net/events.rs
--   Prelude          shared notation: bytes, texts, lists and association lists
--   Examples         instances of the interfaces, and each theorem at a concrete input
--
-- Conventions. A text is the list of its bytes and numbers are natural numbers; a subtraction that
-- the source cuts off at zero is one on natural numbers. Operations behind a lock are atomic, and take
-- and return the state. An instant is a number (nanoseconds in Cache and Retry, seconds elsewhere),
-- and the clock is an argument, as the random jitter of a wait is. A hash map is an association list
-- with one pair for each key. The crates `http`, `url` and `chrono`, the channels of `tokio` and the
-- matcher of `hyper-util` are parameters, whose laws are the documented ones that the code relies on.
-- The producer of a body pushes one chunk after the other, as its only caller does. A `push_wait` may
-- be dropped at any time; the state records whether one ever was over a body that was not ended with
-- an error there and then, and what holds only without that says so. In Auth.Challenges, which reads
-- values decoded from any bytes, a text is the list of its characters, and white space Unicode's; in
-- the other modules `str::trim` is the one of ASCII text.
--
-- Loops. `grant` runs on the number of waiters, since each round takes one out of a lane;
-- `directives` on one more than the length of the header, and `is_known_host` on the length of the
-- host, since each round consumes a byte. That this is enough is proved in Slots.Progress,
-- Hsts.Fuel and Hsts.Matching. `with_retries` runs on one more than the retries allowed, which is
-- proved enough in Retry.Ends. The task of `from_reader` runs on its turns, and Body.Draining says
-- how many are enough. The other loops are recursions over lists.
--
-- Not modelled: the other steps of the fetch chain (src/net/fetch/chain.rs, fetch.rs), the fetcher,
-- requests and their results, DNS, the configuration of TLS; `combined_reader`; the building of
-- clients for a proxy; and what is input and output, or glue over other crates.
pub mod Prelude
pub mod Web
pub mod Slots
pub mod Hsts
pub mod Ports
pub mod MixedContent
pub mod FetchMetadata
pub mod Referrer
pub mod Cors
pub mod Cache
pub mod Chain
pub mod Auth
pub mod Body
pub mod Lifecycle
pub mod Proxy
pub mod Retry
pub mod Examples
