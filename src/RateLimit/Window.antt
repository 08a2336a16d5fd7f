-- ===== src/RateLimit/Window.antt =====
-- What the script answers within one window, on a Redis that does what it is documented to do.
use superapi.Prelude.{
  ℕ, suc, ◌+◌, ◌-◌, ◌≤◌, ◌<◌, Str, ◌≡◌, refl, ap, ap₂, sym, ◌∙◌, false, Option, none, some, List,
  [], ◌∷◌, leb, eqb, if◌then◌else◌, arith, subst,
}
use superapi.RateLimit.Script.{
  Counter, count_of, deadline_of, ttl_of, Redis, ScriptReply, or_window, fixed_window, run_all,
  counted,
}

-- The times do not go back, and all lie before the deadline.
abbrev pub IsWithin : ℕ → ℕ → List ℕ → Type 0
IsWithin now deadline [] = Unit
IsWithin now deadline (later ∷ times) =
    (now ≤ later) × ((later < deadline) × IsWithin later deadline times)

-- The replies to the i-th request of a window and those after it: the first `limit` are allowed, and
-- each tells how long the window still lasts.
unfoldable pub window_replies : ℕ → ℕ → ℕ → List ℕ → List ScriptReply
window_replies limit deadline i [] = []
window_replies limit deadline i (now ∷ times) =
    record { allowed = leb i limit; current = i; ttl = deadline - now }
    ∷ window_replies limit deadline (suc i) times

unfoldable pub count_allowed : List ScriptReply → ℕ
count_allowed [] = 0
count_allowed (r ∷ rs) = if r.allowed then suc (count_allowed rs) else count_allowed rs

count_allowed-window_replies :
    (limit deadline i : ℕ) (times : List ℕ)
    → count_allowed (window_replies limit deadline i times) ≤ suc limit - i
unfolding count_allowed window_replies
count_allowed-window_replies limit deadline i [] = omega arith
count_allowed-window_replies limit deadline i (now ∷ times) =
    ground (arith, count_allowed-window_replies limit deadline (suc i) times)

module _ (redis : Redis) (key : Str) (limit window_ms : ℕ) where
  open redis use {Store}

  abbrev counter : ℕ → ℕ → Counter
  counter count deadline = record { count = count; deadline = some deadline }

  abbrev reply : ℕ → ℕ → ℕ → ScriptReply
  reply count deadline now = record {
    allowed = leb count limit;
    current = count;
    ttl = deadline - now;
  }

  -- What a run leaves and answers.
  abbrev Leaves : ℕ → ℕ → ℕ → Store × ScriptReply → Type 0
  Leaves now deadline count p =
      (redis.holds now key p.0 ≡ some (counter count deadline)) × (p.1 ≡ reply count deadline now)

  ttl_left :
      (now deadline count : ℕ) (s : Store)
      → redis.holds now key s ≡ some (counter count deadline)
      → or_window window_ms (redis.pttl now key s) ≡ deadline - now
  ttl_left now deadline count s h =
      ap (or_window window_ms) (redis.pttl_holds now key s)
      ∙ ap (λ o. or_window window_ms (ttl_of now (deadline_of o))) h

  answered :
      (now deadline count ttl : ℕ)
      → ttl ≡ deadline - now
      → ◌≡◌ {A = ScriptReply}
          (record { allowed = leb count limit; current = count; ttl = ttl })
          (reply count deadline now)
  answered now deadline count ttl h =
      ap (λ t. record { allowed = leb count limit; current = count; ttl = t }) h

  counted_open :
      (now deadline i : ℕ) (s : Store)
      → redis.holds now key s ≡ some (counter (suc (suc i)) deadline)
      → Leaves now deadline (suc (suc i)) (counted redis now key limit window_ms (s, suc (suc i)))
  counted_open now deadline i s h =
      let counts : eqb (suc (suc i)) 1 ≡ false = ground arith in
      rw counts (h, answered now deadline (suc (suc i)) _ (ttl_left now deadline (suc (suc i)) s h))

  counted_new :
      (now : ℕ) (d : Option ℕ) (s : Store)
      → 0 < window_ms
      → redis.holds now key s ≡ some (record { count = 1; deadline = d })
      → Leaves now (now + window_ms) 1 (counted redis now key limit window_ms (s, 1))
  counted_new now d s positive h =
      let set =
        redis.pexpire_holds now key window_ms (record { count = 1; deadline = d }) s positive h in
      (set, answered now (now + window_ms) 1 _ (ttl_left now (now + window_ms) 1 _ set))

  -- One run while a window is open.
  run_open :
      (now deadline i : ℕ) (s : Store)
      → redis.holds now key s ≡ some (counter (suc i) deadline)
      → Leaves now deadline (suc (suc i)) (fixed_window redis now key limit window_ms s)
  unfolding fixed_window
  run_open now deadline i s h =
      let after = redis.incr now key s in
      let count : after.1 ≡ suc (suc i) =
        redis.incr_count now key s ∙ ap (λ o. suc (count_of o)) h in
      let held : redis.holds now key after.0 ≡ some (counter (suc (suc i)) deadline) =
        redis.incr_holds now key s
        ∙ ap (λ o. some (record { count = suc (count_of o); deadline = deadline_of o })) h in
      subst
        (λ n.
          Leaves now deadline (suc (suc i)) (counted redis now key limit window_ms (after.0, n)))
        (sym count) (counted_open now deadline i after.0 held)

  -- The run that opens a window.
  run_new :
      (now : ℕ) (s : Store)
      → 0 < window_ms
      → redis.holds now key s ≡ none
      → Leaves now (now + window_ms) 1 (fixed_window redis now key limit window_ms s)
  unfolding fixed_window
  run_new now s positive h =
      let after = redis.incr now key s in
      let count : after.1 ≡ 1 = redis.incr_count now key s ∙ ap (λ o. suc (count_of o)) h in
      let held =
        redis.incr_holds now key s
        ∙ ap (λ o. some (record { count = suc (count_of o); deadline = deadline_of o })) h in
      subst
        (λ n. Leaves now (now + window_ms) 1 (counted redis now key limit window_ms (after.0, n)))
        (sym count) (counted_new now none after.0 positive held)

  run_all_open :
      (now deadline i : ℕ) (times : List ℕ) (s : Store)
      → redis.holds now key s ≡ some (counter (suc i) deadline)
      → IsWithin now deadline times
      → run_all redis key limit window_ms times s
        ≡ window_replies limit deadline (suc (suc i)) times
  unfolding run_all window_replies
  run_all_open now deadline i [] s h w = refl
  run_all_open now deadline i (later ∷ times) s h (order, (in_time, w)) =
      let still = redis.holds_until now later deadline key (suc i) s h order in_time in
      let (held, answer) = run_open later deadline i s still in
      ap₂ (λ r rs. r ∷ rs) answer
        (run_all_open later deadline (suc i) times
          (fixed_window redis later key limit window_ms s).0 held w)

  -- While a key is not held, a run of the script and any further runs for the key before the window
  -- of that run is over: the n-th is allowed exactly if n is at most the limit, and each is told how
  -- long the window lasts. The window is at least a millisecond.
  pub run_all-window_replies :
      (now : ℕ) (times : List ℕ) (s : Store)
      → 0 < window_ms
      → redis.holds now key s ≡ none
      → IsWithin now (now + window_ms) times
      → run_all redis key limit window_ms (now ∷ times) s
        ≡ window_replies limit (now + window_ms) 1 (now ∷ times)
  unfolding run_all window_replies
  run_all-window_replies now times s positive h w =
      let (held, answer) = run_new now s positive h in
      ap₂ (λ r rs. r ∷ rs) answer
        (run_all_open now (now + window_ms) 0 times (fixed_window redis now key limit window_ms s).0
          held w)

  -- Of the runs of the script for a key within one window, which the first opens, no more are
  -- allowed than the limit. The window is at least a millisecond.
  pub count_allowed-run_all :
      (now : ℕ) (times : List ℕ) (s : Store)
      → 0 < window_ms
      → redis.holds now key s ≡ none
      → IsWithin now (now + window_ms) times
      → count_allowed (run_all redis key limit window_ms (now ∷ times) s) ≤ limit
  count_allowed-run_all now times s positive h w =
      let bound = count_allowed-window_replies limit (now + window_ms) 1 (now ∷ times) in
      rw (run_all-window_replies now times s positive h w) (omega (arith, bound))
