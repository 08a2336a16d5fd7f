-- ===== src/RateLimit/Tests.antt =====
-- A Redis in memory, rate limits on it, and the theorems at them.
use superapi.Prelude.{
  ℕ, suc, ◌+◌, ◌*◌, ◌≤◌, ◌<◌, Str, str, ◌≡◌, refl, ap, sym, ◌∙◌, Bool, true, false, Option, none,
  some, List, [], ◌∷◌, ◌==◌, ==-refl, ltb, if◌then◌else◌, inl, inr, arith, Bool-cases,
}
use superapi.RateLimit.{
  Caller, Rule, build_key, resolve_scope_and_identifier, retry_after_seconds, scope_auto,
  scope_user,
}
use superapi.RateLimit.Script.{Counter, count_of, deadline_of, ttl_of, Redis, run_all}
use superapi.RateLimit.Window.{
  IsWithin, window_replies, count_allowed, run_all-window_replies, count_allowed-run_all,
}
use superapi.RateLimit.Decide.{
  ScriptResult, replied, failed, milliseconds, limiter_unavailable, too_many_requests, rate_limit,
}
use superapi.RateLimit.Verdicts.{Answers, rate_limit_outcome, retry_after_seconds_rounds_up}
use superapi.RateLimit.Identity.{IsClean, resolve_scope_and_identifier-IsClean}

abbrev is_live : ℕ → Option ℕ → Bool
is_live now none = true
is_live now (some deadline) = ltb now deadline

abbrev alive : ℕ → Option Counter → Option Counter
alive now none = none
alive now (some c) = if is_live now c.deadline then some c else none

alive-some :
    (now : ℕ) (o : Option Counter) (c : Counter)
    → alive now o ≡ some c
    → (o ≡ some c) × (is_live now c.deadline ≡ true)
alive-some now none c h = cc
alive-some now (some b) c h = elim (Bool-cases (is_live now b.deadline)) [
  | inr e ↦ cc (rw e at h)
  | inl e ↦
      let same : some b ≡ some c = rw e at h in
      (same, ap (λ o. is_live now (deadline_of o)) (sym same) ∙ e)
]

alive-live :
    (now count : ℕ) (d : Option ℕ)
    → is_live now d ≡ true
    → alive now (some (record { count = count; deadline = d }))
      ≡ some (record { count = count; deadline = d })
alive-live now count d h = rw h refl

deadline_live : (now : ℕ) (o : Option Counter) → is_live now (deadline_of (alive now o)) ≡ true
deadline_live now none = refl
deadline_live now (some c) = elim (Bool-cases (is_live now c.deadline)) [
  | inl e ↦ rw e e
  | inr e ↦ rw e refl
]

abbrev Memory : Type 0
Memory = Str → Option Counter

abbrev put_counter : Str → Option Counter → Memory → Memory
put_counter key o s = λ k. if k == key then o else s k

put_counter-same : (key : Str) (o : Option Counter) (s : Memory) → put_counter key o s key ≡ o
put_counter-same key o s = rw (==-refl key) refl

abbrev counted_up : Option Counter → Counter
counted_up o = record { count = suc (count_of o); deadline = deadline_of o }

abbrev expiring : ℕ → Option Counter → Option Counter
expiring deadline none = none
expiring deadline (some c) = some (record { count = c.count; deadline = some deadline })

abbrev memory_redis : Redis
memory_redis = record {
  Store = Memory;
  holds = λ now key s. alive now (s key);
  incr = λ now key s. (
    put_counter key (some (counted_up (alive now (s key)))) s,
    suc (count_of (alive now (s key))),
  );
  pexpire = λ now key span s. put_counter key (expiring (now + span) (alive now (s key))) s;
  pttl = λ now key s. ttl_of now (deadline_of (alive now (s key)));
  incr_count = λ now key s. refl;
  incr_holds = λ now key s.
      ap (alive now) (put_counter-same key (some (counted_up (alive now (s key)))) s)
      ∙ alive-live now (suc (count_of (alive now (s key)))) (deadline_of (alive now (s key)))
          (deadline_live now (s key));
  pexpire_holds = λ now key span c s positive h.
      ap (alive now) (put_counter-same key (expiring (now + span) (alive now (s key))) s)
      ∙ ap (λ o. alive now (expiring (now + span) o)) h
      ∙ alive-live now c.count (some (now + span)) (ground arith);
  pttl_holds = λ now key s. refl;
  holds_until = λ now later deadline key count s h order in_time.
      ap (alive later)
        (alive-some now (s key) (record { count = count; deadline = some deadline }) h).0
      ∙ alive-live later count (some deadline) (ground arith);
}

abbrev empty : Memory
empty = λ k. none

abbrev times : List ℕ
times = 100 ∷ 1099 ∷ []

times-IsWithin : IsWithin 100 (100 + 1000) times
times-IsWithin = (omega arith, (omega arith, (omega arith, (omega arith, tt))))

run_all-window_replies_example :
    run_all memory_redis (str "k") 2 1000 (100 ∷ times) empty
    ≡ window_replies 2 (100 + 1000) 1 (100 ∷ times)
run_all-window_replies_example =
    run_all-window_replies memory_redis (str "k") 2 1000 100 times empty (omega arith) refl
      times-IsWithin

count_allowed-run_all_example :
    count_allowed (run_all memory_redis (str "k") 2 1000 (100 ∷ times) empty) ≤ 2
count_allowed-run_all_example =
    count_allowed-run_all memory_redis (str "k") 2 1000 100 times empty (omega arith) refl
      times-IsWithin

third_refused :
    window_replies 2 1100 1 (100 ∷ times)
    ≡ record { allowed = true; current = 1; ttl = 1000 }
      ∷ record { allowed = true; current = 2; ttl = 1000 }
      ∷ record { allowed = false; current = 3; ttl = 1 }
      ∷ []
unfolding window_replies
third_refused = refl

retry_after_seconds_rounds_up_example :
    (1000001 ≤ retry_after_seconds 1000001 * 1000000000)
    × (retry_after_seconds 1000001 * 1000000000 < 1000001 + 1000000000)
retry_after_seconds_rounds_up_example = retry_after_seconds_rounds_up 1000001 (omega arith)

-- Beyond 2 ^ 24 seconds a nanosecond is lost in float64.
long_wait : retry_after_seconds 16777216000000001 ≡ 16777216
unfolding retry_after_seconds
long_wait = refl

abbrev caller : Caller
caller = record {
  client_ip = none;
  remote_addr = str "10.0.0.1:443";
  user_id = some (str " a b ");
  token_hash = none;
}

abbrev rule : Rule
rule = record { limit = 2; window = 1000000000; scope = scope_auto; keyer = none }

resolved : resolve_scope_and_identifier caller rule ≡ (scope_user, str "a_b")
unfolding resolve_scope_and_identifier
resolved = refl

key_of_user : build_key [] (str "/api/{id}") scope_user (str "u1") ≡ str "rl:dev:/api/{id}:user:u1"
unfolding build_key
key_of_user = refl

abbrev refusing : Str → ℕ → ℕ → ScriptResult
refusing k limit window_ms = replied (record { allowed = false; current = 3; ttl = 250 })

refused : rate_limit refusing (str "dev") false (str "/x") rule caller ≡ too_many_requests (some 1)
unfolding rate_limit
refused = refl

fails_closed :
    rate_limit (λ key limit window_ms. failed) (str "dev") false (str "/x") rule caller
    ≡ limiter_unavailable
unfolding rate_limit
fails_closed = refl

rate_limit_outcome_example :
    let (scope, identifier) = resolve_scope_and_identifier caller rule in
    Answers false 1000000000
      (refusing (build_key (str "dev") (str "/x") scope identifier) 2 (milliseconds 1000000000))
      (rate_limit refusing (str "dev") false (str "/x") rule caller)
rate_limit_outcome_example =
    rate_limit_outcome refusing (str "dev") false (str "/x") rule caller (omega arith) (omega arith)
      (omega arith) refl

resolve_scope_and_identifier-IsClean_example : IsClean (resolve_scope_and_identifier caller rule)
resolve_scope_and_identifier-IsClean_example = resolve_scope_and_identifier-IsClean caller rule
