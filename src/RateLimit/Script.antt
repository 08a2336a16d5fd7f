-- ===== src/RateLimit/Script.antt =====
-- internal/core/ratelimit/ratelimit.go, fixedWindowScript. Redis is the interface below: the three
-- commands, what a key holds, and what the commands are documented to do with it. Times are
-- milliseconds here, on the server's clock, which a script reads once.
use superapi.Prelude.{
  ℕ, suc, ◌+◌, ◌-◌, ◌≤◌, ◌<◌, Str, ◌≡◌, Bool, Option, none, some, List, [], ◌∷◌, leb, eqb,
  if◌then◌else◌,
}

-- The number that a key holds and when it expires, if it does.
pub record Counter : Type 0 where
  pub count : ℕ
  pub deadline : Option ℕ

abbrev pub count_of : Option Counter → ℕ
count_of none = 0
count_of (some c) = c.count

abbrev pub deadline_of : Option Counter → Option ℕ
deadline_of none = none
deadline_of (some c) = c.deadline

-- Time to live as PTTL gives it; `none` is a negative answer.
abbrev pub ttl_of : ℕ → Option ℕ → Option ℕ
ttl_of now none = none
ttl_of now (some d) = some (d - now)

pub record Redis : Type 1 where
  pub Store : Type 0
  pub holds : ℕ → Str → Store → Option Counter
  pub incr : ℕ → Str → Store → Store × ℕ
  pub pexpire : ℕ → Str → ℕ → Store → Store
  pub pttl : ℕ → Str → Store → Option ℕ
  -- INCR adds one, from nothing to 1, and keeps the expiry.
  pub incr_count :
      (now : ℕ) (key : Str) (s : Store) → (incr now key s).1 ≡ suc (count_of (holds now key s))
  pub incr_holds :
      (now : ℕ) (key : Str) (s : Store)
      → holds now key (incr now key s).0
        ≡ some (record {
          count = suc (count_of (holds now key s));
          deadline = deadline_of (holds now key s);
        })
  -- PEXPIRE sets the expiry of a key that is there; a span of 0 would delete it.
  pub pexpire_holds :
      (now : ℕ) (key : Str) (span : ℕ) (c : Counter) (s : Store)
      → 0 < span
      → holds now key s ≡ some c
      → holds now key (pexpire now key span s)
        ≡ some (record { count = c.count; deadline = some (now + span) })
  -- PTTL reads the expiry.
  pub pttl_holds :
      (now : ℕ) (key : Str) (s : Store)
      → pttl now key s ≡ ttl_of now (deadline_of (holds now key s))
  -- A key that expires later than a time is still there then, and one that expires earlier is gone.
  pub holds_until :
      (now later deadline : ℕ) (key : Str) (count : ℕ) (s : Store)
      → holds now key s ≡ some (record { count = count; deadline = some deadline })
      → now ≤ later
      → later < deadline
      → holds later key s ≡ some (record { count = count; deadline = some deadline })

-- What the script returns: whether the request is allowed, the count and the time to live.
pub record ScriptReply : Type 0 where
  pub allowed : Bool
  pub current : ℕ
  pub ttl : ℕ

abbrev pub or_window : ℕ → Option ℕ → ℕ
or_window window_ms none = window_ms
or_window window_ms (some ttl) = ttl

module _ (redis : Redis) where
  open redis use {Store}

  -- The script after INCR.
  abbrev pub counted : ℕ → Str → ℕ → ℕ → Store × ℕ → Store × ScriptReply
  counted now key limit window_ms (s, current) =
      let expiring = if eqb current 1 then redis.pexpire now key window_ms s else s in
      (
        expiring,
        record {
          allowed = leb current limit;
          current = current;
          ttl = or_window window_ms (redis.pttl now key expiring);
        },
      )

  unfoldable pub fixed_window : ℕ → Str → ℕ → ℕ → Store → Store × ScriptReply
  fixed_window now key limit window_ms s = counted now key limit window_ms (redis.incr now key s)

  -- The replies of runs for one key at the given times.
  unfoldable pub run_all : Str → ℕ → ℕ → List ℕ → Store → List ScriptReply
  unfolding fixed_window
  run_all key limit window_ms [] s = []
  run_all key limit window_ms (now ∷ times) s =
      let (s', reply) = fixed_window now key limit window_ms s in
      reply ∷ run_all key limit window_ms times s'
