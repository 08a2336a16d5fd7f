-- ===== src/Document/Memory/Atomicity.antt =====
-- What WithTx promises: all of a callback's writes or none, and the same as running it directly.
use superapi.Prelude.{
  Str, ◌≡◌, ◌≢◌, refl, ◌∙◌, true, false, Option, none, some, InnerDistinct, keys,
}
use superapi.Document.Types.{Error, Json}
use superapi.Document.Memory.{InMemoryStore, staged}
use superapi.Document.Memory.Session.{Session, stored}
use superapi.Document.Memory.Callback.{
  Callback, run, begin, end_tx, end_direct, with_tx, run_unit, committed,
}
use superapi.Document.Memory.View.{view, IsValid}
use superapi.Document.Memory.Commit.{stored-commit}
use superapi.Document.Memory.Serial.{SameView, RunsAlike, run_alike, run_bound-store}

begin-IsValid : (s : InMemoryStore) → InnerDistinct s.entries → IsValid (begin s)
unfolding keys
begin-IsValid s h = record { collections = h; names = tt; staged_ids = tt }

begin-SameView : (s : InMemoryStore) → SameView true false (begin s) (begin s)
unfolding view staged
begin-SameView s n i = refl

module _ (json : Json) where
  ends_alike :
      (p q : Session × Option (Option Error))
      → RunsAlike json true false p q
      → ((end_tx json p).1 ≡ (end_direct json q).1)
        × ((end_tx json p).1 ≡ committed
            → (n i : Str) → stored n i (end_tx json p).0 ≡ stored n i (end_direct json q).0)
  unfolding view
  ends_alike (s, none) (t, o) h = rw (← h.outcome) (refl, λ c. cc)
  ends_alike (s, some (some e)) (t, o) h = rw (← h.outcome) (refl, λ c. cc)
  ends_alike (s, some none) (t, o) h =
      rw (← h.outcome) (refl, λ c n i. stored-commit n i s h.left ∙ h.views n i)

  end_tx_store :
      (s : InMemoryStore) (p : Session × Option (Option Error))
      → p.0.store ≡ s
      → (end_tx json p).1 ≢ committed
      → (end_tx json p).0 ≡ s
  end_tx_store s (t, none) e h = e
  end_tx_store s (t, some (some x)) e h = e
  end_tx_store s (t, some none) e h = absurd (h refl)

  both_ends :
      (fn : Callback json) (s : InMemoryStore)
      → InnerDistinct s.entries
      → ((with_tx json (some fn) s).1 ≡ (run_unit json false (some fn) s).1)
        × ((with_tx json (some fn) s).1 ≡ committed
            → (n i : Str)
            → stored n i (with_tx json (some fn) s).0
              ≡ stored n i (run_unit json false (some fn) s).0)
  unfolding with_tx run_unit
  both_ends fn s h =
      let v = begin-IsValid s h in
      ends_alike (run json true fn (begin s)) (run json false fn (begin s))
        (run_alike json true false fn (begin s) (begin s) v v (begin-SameView s))

  -- A callback ends in a transaction as it does when it runs directly on the store: it returns nil,
  -- returns the same error or panics. The store's collections have distinct keys.
  pub with_tx-outcome :
      (fn : Callback json) (s : InMemoryStore)
      → InnerDistinct s.entries
      → (with_tx json (some fn) s).1 ≡ (run_unit json false (some fn) s).1
  with_tx-outcome fn s h = (both_ends fn s h).0

  -- If a transaction commits, the store holds the same document, or none, under every id of every
  -- collection as after running the callback directly on the store. The store's collections have
  -- distinct keys.
  pub with_tx_serial :
      (fn : Callback json) (s : InMemoryStore)
      → InnerDistinct s.entries
      → (with_tx json (some fn) s).1 ≡ committed
      → (n i : Str)
      → stored n i (with_tx json (some fn) s).0 ≡ stored n i (run_unit json false (some fn) s).0
  with_tx_serial fn s h = (both_ends fn s h).1

  -- A transaction that does not commit, because its callback is nil, returns an error or panics,
  -- leaves the store as it was.
  pub with_tx_rollback :
      (fn : Option (Callback json)) (s : InMemoryStore)
      → (with_tx json fn s).1 ≢ committed
      → (with_tx json fn s).0 ≡ s
  unfolding with_tx
  with_tx_rollback none s h = refl
  with_tx_rollback (some fn) s h =
      end_tx_store s (run json true fn (begin s)) (run_bound-store json fn (begin s)) h
