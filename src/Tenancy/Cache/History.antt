-- ===== src/Tenancy/Cache/History.antt =====
-- Histories of the tenant cache: sequences of its calls, and the log of their puts.
use superapi.Prelude.{ℕ, Str, List, [], ◌∷◌}
use superapi.Tenancy.Cache.{CachedTenant, ValidationCache, get_cached, put_cached}

-- The calls of the cache: a get at two readings of the clock, and a put.
pub data Access : Type 0 where
  get_access : ℕ → ℕ → Str → Access
  put_access : ℕ → Str → CachedTenant → Access

unfoldable pub after : List Access → ValidationCache → ValidationCache
unfolding get_cached put_cached
after [] c = c
after (get_access now later k ∷ xs) c = after xs (get_cached now later k c).0
after (put_access now k t ∷ xs) c = after xs (put_cached now k t c)

-- A put: the key, what was put, and the clock.
pub record Put : Type 0 where
  pub key : Str
  pub tenant : CachedTenant
  pub at : ℕ

-- The puts of a history, the last one first, onto those before it.
unfoldable pub puts_onto : List Access → List Put → List Put
puts_onto [] log = log
puts_onto (get_access now later k ∷ xs) log = puts_onto xs log
puts_onto (put_access now k t ∷ xs) log =
    puts_onto xs (record { key = k; tenant = t; at = now } ∷ log)
