-- ===== src/Lib.antt =====
-- SuperAPI: a Go service template, whose parts with logic of their own are modelled here.
--
-- Prelude holds what the parts share: byte strings with Go's strings functions as far as they are
-- used (Prelude/Text, Prelude/Host), lists and Boolean tests over native numbers (Prelude/Lists,
-- Prelude/Tests), byte order and sorting (Prelude/Order), and association lists for Go maps
-- (Prelude/Maps, Prelude/Nested), integers (Prelude/Integer), the pieces of a separated text
-- (Prelude/Pieces), valid UTF-8 (Prelude/Utf8), the seconds of a duration in float64
-- (Prelude/Float), and places in a list (Prelude/Places).
--
-- Document: internal/storage/document. Document/Memory.antt is the in-memory store of memory.go
-- and its staged transactions, Document/Memory/Session.antt the operations of a collection
-- handle, Document/Memory/Callback.antt the method WithTx and the free function WithTx, with a
-- callback as a tree of calls and replies. The store's lock makes each reading and each writing
-- one step; Insert is one of each, and `insert_among` has whatever others do in between. While a
-- transaction runs, no other goroutine uses the store. A callback that opens a transaction of its
-- own is not modelled. encoding/json is a parameter: the record Json.
--
-- Tenancy: internal/tenancy. Tenancy/Cache.antt is the validation cache of cache.go, a pair of
-- bounded lists with expiry; the clock is an argument of each call, and the put loop that removes
-- the oldest entry while there are too many runs on fuel, the length of the list, after which
-- nothing is left to remove. Tenancy/Resolver.antt holds the extractors and the format tests of
-- resolver.go, Tenancy/Resolver/Lookup.antt its lookupTenant and Tenancy/Resolver/Handler.antt
-- its Middleware. The tenant directory is a parameter of each request, what it answers to each
-- value.
--
-- Policy: internal/core/policy. Policy/Metadata.antt is the registry of metadata.go,
-- Policy/Validator.antt the rules of validator.go and validator_rules.go, and
-- Policy/TenantRule.antt the rule that internal/tenancy/rules.go adds to them. Policy/Guards.antt
-- holds the policies themselves, as functions from a handler to a handler: policy.go, auth.go and
-- authext.go, and Policy/Guards/Tenant.antt the tenant policies of internal/tenancy (policies.go,
-- tenant.go, authhook.go). goAuth is a parameter: what its guard answers to a request, and which
-- permissions a mask has. RequireJSON and the forwarding methods of the response writer are left
-- out.
--
-- RateLimit: internal/core/ratelimit/ratelimit.go and internal/core/policy/ratelimit.go. Redis is
-- a parameter, or the fixed window script of ratelimit.go run on a store of counters with expiry.
--
-- Cache: internal/core/cache/manager.go, internal/core/policy/cache.go and cachecontrol.go.
-- Cache/Token.antt holds the versions of tags, their token with its in-process cache, and
-- BumpTags, on a Redis that is an interface of a read and INCR; Cache/Key.antt the template of a
-- route and the key of a request, with SHA-256 a parameter; Cache/Escape.antt and
-- Cache/Decimal.antt net/url's QueryEscape and strconv's decimals, whose digits are found on
-- fuel, the number itself. Cache/Tags.antt has the specifications of tags and what a request
-- makes of them, Cache/Store.antt Get, Set and the key of a request with the errors of Redis,
-- which are arguments, Cache/Writer.antt the writers of policy/cache.go beside what net/http
-- sends, and Cache/Read.antt the policies CacheRead and CacheInvalidate themselves. Redis and
-- encoding/json are the records Redis and Codec there, a handler the list of calls that it makes
-- of its writer. Cache/Control.antt is the policy CacheControl of policy/cachecontrol.go.
--
-- Secrets: internal/core/auth/secret_cipher.go, with AES-GCM as the interface Aead.
--
-- Config: internal/core/config. Config/Numbers.antt and Config/Env.antt read the environment, an
-- association list, and hold the profiles of profile.go; Config/Types.antt has the sections,
-- Config/Sections.antt and Config/Load.antt the function Load; Config/Guards.antt,
-- Config/WebAuthn.antt, Config/Notify.antt, Config/AuthParts.antt, Config/Parts.antt and
-- Config/Lint.antt the function Lint with its parts, whose errors are kept without the values
-- that they quote; Config/Fields.antt the field of each variable that Lint reads again;
-- Config/Totp.antt the key rings of totp_keys.go. Durations, floats, URLs, addresses and base64
-- are read by the interface Library. An int, which Go reads in 64 bits, keeps its bounds.
--
-- Notify: internal/core/notify/notify.go. Notify/Dispatcher.antt is the dispatcher as a step
-- function on its slots, its deliveries and the calls of Wait and Shutdown, so a run is any
-- interleaving of steps.
--
-- Not modelled: SMTP and the log driver of notifications, readiness, what wraps net/http, the
-- stores over SQL and goAuth, code generators, command line tools, metrics and tracing.
--
-- Strings are byte strings; upper and lower case are mapped for ASCII letters only, where the
-- source maps Unicode. Goroutines are modelled in Notify, as interleaved steps, and beside Insert
-- in Document; the Go memory model is not. Measures of time are natural numbers of nanoseconds,
-- unless a comment says milliseconds, and integers in Config and Cache/Control.
pub mod Cache
pub mod Config
pub mod Document
pub mod Notify
pub mod Policy
pub mod Prelude
pub mod RateLimit
pub mod Secrets
pub mod Tenancy
