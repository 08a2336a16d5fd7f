-- ===== src/Document/Memory/Callback.antt =====
-- internal/storage/document/memory.go, WithTx, and store.go, the free function WithTx. A callback
-- makes calls of a collection, and goes on as their replies tell it; it returns an error or nil, or
-- panics. No other goroutine uses the store while it runs. A callback that begins a transaction of its own is not modelled.
use superapi.Prelude.{Str, str, Bool, true, false, Option, none, some, [], Dict, if◌then◌else◌}
use superapi.Document.Types.{Error, other, Document, Json}
use superapi.Document.Memory.{InMemoryStore, commit}
use superapi.Document.Memory.Session.{
  Session, Reply, documents, get, insert_document, replace, delete, find,
}

pub data TxResult : Type 0 where
  committed : TxResult
  returned : Error → TxResult
  panicked : TxResult

abbrev pub begin : InMemoryStore → Session
begin s = record { store = s; tx = record { writes = [] } }

module _ (json : Json) where
  open json use {Value}

  pub data Call : Type 0 where
    get_call delete_call : Str → Str → Call
    insert_call replace_call : Str → Document → Call
    find_call : Str → Dict Value → Call

  unfoldable pub perform : Bool → Call → Session → Session × Reply
  unfolding get insert_document replace delete find
  perform bound (get_call name id) s = (s, get bound name id s)
  perform bound (insert_call name doc) s = insert_document bound name doc s
  perform bound (replace_call name doc) s = replace bound name doc s
  perform bound (delete_call name id) s = delete bound name id s
  perform bound (find_call name filter) s = (s, documents (find json bound name filter s))

  pub data Callback : Type 0 where
    ret : Option Error → Callback
    panic : Callback
    call : Call → (Reply → Callback) → Callback

  unfoldable pub run : Bool → Callback → Session → Session × Option (Option Error)
  unfolding perform
  run bound (ret e) s = (s, some e)
  run bound panic s = (s, none)
  run bound (call c k) s = let (s', reply) = perform bound c s in run bound (k reply) s'

  abbrev pub end_tx : Session × Option (Option Error) → InMemoryStore × TxResult
  end_tx (s, none) = (s.store, panicked)
  end_tx (s, some (some e)) = (s.store, returned e)
  end_tx (s, some none) = (commit s.tx s.store, committed)

  -- (*InMemoryStore).WithTx, on a store that is not nil, with the callback or nil.
  unfoldable pub with_tx : Option Callback → InMemoryStore → InMemoryStore × TxResult
  unfolding run commit
  with_tx none s = (s, returned (other (str "nil transaction callback")))
  with_tx (some fn) s = end_tx (run true fn (begin s))

  abbrev pub end_direct : Session × Option (Option Error) → InMemoryStore × TxResult
  end_direct (s, none) = (s.store, panicked)
  end_direct (s, some (some e)) = (s.store, returned e)
  end_direct (s, some none) = (s.store, committed)

  -- The free function WithTx, over a backend that supports transactions or does not; the backend's
  -- operations are those of the in-memory store.
  unfoldable pub run_unit : Bool → Option Callback → InMemoryStore → InMemoryStore × TxResult
  unfolding with_tx run
  run_unit supported none s = (s, returned (other (str "nil transaction callback")))
  run_unit supported (some fn) s =
      if supported then with_tx (some fn) s else end_direct (run false fn (begin s))
