-- ===== src/RateLimit.antt =====
-- internal/core/ratelimit/ratelimit.go: the key of a limit, whom a request counts for, and the
-- decision. Durations are nanoseconds.
pub mod Script
pub mod Window
pub mod Decide
pub mod Verdicts
pub mod Identity
mod Tests
use superapi.Prelude.{
  ℕ, zero, suc, ◌+◌, ◌-◌, ◌*◌, ◌/◌, Str, String, str, Bool, true, false, not, ◌&&◌, ◌||◌, Option,
  none, some, List, [], ◌∷◌, ◌++◌, ◌==◌, map, take, length, leb, ltb, eqb, trim_space,
  split_host_port, if◌then◌else◌,
}
use superapi.Prelude.Float.{ceil_seconds}

-- Scope
abbrev pub scope_auto : Str
scope_auto = str "auto"

abbrev pub scope_anon : Str
scope_anon = str "anon"

abbrev pub scope_ip : Str
scope_ip = str "ip"

abbrev pub scope_user : Str
scope_user = str "user"

abbrev pub scope_token : Str
scope_token = str "token"

abbrev pub anonymous : Str
anonymous = str "anonymous"

abbrev space_to_underscore : ℕ → ℕ
space_to_underscore c = if eqb c 32 then 95 else c

unfoldable pub normalize_route : Str → Str
unfolding trim_space ◌==◌
normalize_route route =
    let r = trim_space route in
    if r == [] then str "unknown" else take 240 (map space_to_underscore r)

abbrev pub blank_to_underscore : ℕ → ℕ
blank_to_underscore c = if eqb c 32 || eqb c 10 || eqb c 13 || eqb c 9 then 95 else c

unfoldable pub sanitize_identifier : Str → Str
unfolding trim_space ◌==◌
sanitize_identifier id =
    let trimmed = trim_space id in
    if trimmed == [] then [] else take 128 (map blank_to_underscore trimmed)

abbrev pub or_anon : Str → Str
or_anon scope = if scope == [] || scope == scope_auto then scope_anon else scope

abbrev or_default : Str → Str → Str
or_default default s = if s == [] then default else s

unfoldable pub build_key : Str → Str → Str → Str → Str
unfolding normalize_route sanitize_identifier trim_space ◌==◌
build_key env route scope id =
    str "rl:"
    ++ or_default (str "dev") (trim_space env)
    ++ str ":"
    ++ normalize_route route
    ++ str ":"
    ++ or_anon scope
    ++ str ":"
    ++ or_default anonymous (sanitize_identifier id)

unfoldable pub normalize_key : Str × Str → Str × Str
unfolding sanitize_identifier ◌==◌
normalize_key (scope, id) =
    let sanitized = sanitize_identifier id in
    if sanitized == [] then (scope_anon, anonymous) else (or_anon scope, sanitized)

-- What a keyer reads of a request. The hash of the bearer token, cut to 16 hex digits, is given; no
-- token is `none`.
pub record Caller : Type 0 where
  pub client_ip : Option Str
  pub remote_addr : Str
  pub user_id : Option Str
  pub token_hash : Option Str

abbrev pub Keyer : Type 0
Keyer = Caller → Str × Str

abbrev pub nobody : Str × Str
nobody = (scope_anon, anonymous)

abbrev host_or_whole : Str → Option Str → Str
host_or_whole whole none = whole
host_or_whole whole (some host) = host

abbrev by_host : Str → Str × Str
by_host host = if host == [] then nobody else (scope_ip, host)

unfoldable pub key_by_ip : Keyer
unfolding split_host_port trim_space ◌==◌
key_by_ip r = elim r.client_ip [
  | some ip ↦ (scope_ip, ip)
  | none ↦
      let addr = trim_space r.remote_addr in by_host (host_or_whole addr (split_host_port addr))
]

unfoldable pub key_by_user : Keyer
unfolding trim_space ◌==◌
key_by_user r = elim r.user_id [
  | none ↦ nobody
  | some user ↦ if trim_space user == [] then nobody else (scope_user, user)
]

unfoldable pub key_by_token_hash : Keyer
key_by_token_hash r = elim r.token_hash [ none ↦ nobody | some hash ↦ (scope_token, hash) ]

-- The first of two identities that is not anonymous.
abbrev pub unless_anon : Str × Str → Str × Str → Str × Str
unless_anon (scope, id) next = if scope == scope_anon then next else (scope, id)

unfoldable pub key_by_user_or_token_hash : Keyer
unfolding key_by_user key_by_token_hash ◌==◌
key_by_user_or_token_hash r = unless_anon (key_by_user r) (unless_anon (key_by_token_hash r) nobody)

pub record Rule : Type 0 where
  pub limit : ℕ
  pub window : ℕ
  pub scope : Str
  pub keyer : Option Keyer

-- The switch on the rule's scope.
unfoldable pub resolve_by_scope : Str → Caller → Str × Str
unfolding normalize_key key_by_ip key_by_user key_by_token_hash key_by_user_or_token_hash ◌==◌
resolve_by_scope scope r =
    if scope == scope_ip
    then normalize_key (key_by_ip r)
    else if scope == scope_user
    then unless_anon (normalize_key (key_by_user r))
        (unless_anon (normalize_key (key_by_token_hash r)) nobody)
    else if scope == scope_token
    then unless_anon (normalize_key (key_by_token_hash r)) nobody
    else if scope == scope_auto || scope == []
    then unless_anon (normalize_key (key_by_user_or_token_hash r)) nobody
    else nobody

abbrev pub resolve_with : Caller → Str → Option Keyer → Str × Str
resolve_with r scope none = resolve_by_scope scope r
resolve_with r scope (some keyer) = unless_anon (normalize_key (keyer r)) (resolve_by_scope scope r)

unfoldable pub resolve_scope_and_identifier : Caller → Rule → Str × Str
unfolding normalize_key resolve_by_scope ◌==◌
resolve_scope_and_identifier r rule = resolve_with r rule.scope rule.keyer

-- RetryAfterSeconds
unfoldable pub retry_after_seconds : ℕ → ℕ
unfolding ceil_seconds
retry_after_seconds d = ceil_seconds d
