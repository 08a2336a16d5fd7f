-- ===== src/Document/Memory/Session.antt =====
-- internal/storage/document/memory.go: the operations of a memoryCollection. `bound` tells whether
-- the handle carries a transaction, which is when the context that it was made from does. Each takes
-- the lock of the store at most once, but Insert twice: it checks the id, lets go, and then writes.
use superapi.Prelude.{
  Str, str, Bool, true, false, Option, none, some, List, [], ◌∷◌, ◌==◌, Dict, lookup, insert,
  remove, keys, nested_get, nested_put, nested_remove, or_empty, sort_strings, if◌then◌else◌,
}
use superapi.Document.Types.{Error, not_found, already_exists, other, Document, Json}
use superapi.Document.Memory.{InMemoryStore, MemoryTx, stage, staged, matches_filter}

-- The store, and the transaction that a bound handle writes to.
pub record Session : Type 0 where
  pub store : InMemoryStore
  pub tx : MemoryTx

pub data Reply : Type 0 where
  document : Document → Reply
  documents : List Document → Reply
  done : Reply
  failed : Error → Reply

-- s.data[name][id]
unfoldable pub stored : Str → Str → InMemoryStore → Option Str
unfolding nested_get lookup
stored name id s = nested_get name id s.entries

abbrev get_stored : Str → Option Str → Reply
get_stored id none = failed not_found
get_stored id (some payload) = document (record { id = id; payload = payload })

abbrev get_staged : Str → Option (Option Str) → Option Str → Reply
get_staged id none committed = get_stored id committed
get_staged id (some payload) committed = get_stored id payload

unfoldable pub get : Bool → Str → Str → Session → Reply
unfolding staged stored
get bound name id s =
    if bound
    then get_staged id (staged name id s.tx) (stored name id s.store)
    else get_stored id (stored name id s.store)

unfoldable pub write : Bool → Str → Document → Session → Session × Reply
unfolding stage nested_put insert lookup
write bound name doc s =
    if bound then (record s { tx = stage name doc.id (some doc.payload) s.tx }, done) else (
      record s { store = record { entries = nested_put name doc.id doc.payload s.store.entries } },
      done,
    )

abbrev pub id_required : Error
id_required = other (str "document id is required")

abbrev insert_after : Reply → Session × Reply → Session → Session × Reply
insert_after (document d) written s = (s, failed already_exists)
insert_after (failed not_found) written s = written
insert_after (failed e) written s = (s, failed e)
insert_after reply written s = (s, reply)

-- What other goroutines do to the store between the check and the write.
abbrev pub meanwhile : (InMemoryStore → InMemoryStore) → Session → Session
meanwhile others s = record s { store = others s.store }

-- Insert, with the effect of the others in between.
unfoldable pub insert_among :
    (InMemoryStore → InMemoryStore) → Bool → Str → Document → Session → Session × Reply
unfolding get write ◌==◌
insert_among others bound name doc s =
    if doc.id == []
    then (s, failed id_required)
    else insert_after (get bound name doc.id s) (write bound name doc (meanwhile others s))
        (meanwhile others s)

-- Insert, where no other goroutine writes in between.
unfoldable pub insert_document : Bool → Str → Document → Session → Session × Reply
unfolding insert_among
insert_document bound name doc s = insert_among (λ store. store) bound name doc s

unfoldable pub replace : Bool → Str → Document → Session → Session × Reply
unfolding write ◌==◌
replace bound name doc s = if doc.id == [] then (s, failed id_required) else write bound name doc s

-- The existence check of a delete inside a transaction: getForDelete.
abbrev exists_for_delete : Option (Option Str) → Option Str → Bool
exists_for_delete (some none) committed = false
exists_for_delete (some (some payload)) committed = true
exists_for_delete none none = false
exists_for_delete none (some payload) = true

abbrev is_there : Option Str → Bool
is_there none = false
is_there (some payload) = true

unfoldable pub delete : Bool → Str → Str → Session → Session × Reply
unfolding stage staged stored nested_remove remove insert lookup
delete bound name id s =
    if bound
    then (if exists_for_delete (staged name id s.tx) (stored name id s.store)
        then (record s { tx = stage name id none s.tx }, done)
        else (s, failed not_found))
    else (if is_there (stored name id s.store)
        then (record s { store = record { entries = nested_remove name id s.store.entries } }, done)
        else (s, failed not_found))

-- The two loops that build the view of `Find`: the committed documents, then the staged ones.
unfoldable pub copy_committed : Dict Str → Dict Str → Dict Str
unfolding insert
copy_committed [] view = view
copy_committed ((id, payload) ∷ col) view = copy_committed col (insert id payload view)

abbrev overlay_one : Str → Option Str → Dict Str → Dict Str
overlay_one id none view = remove id view
overlay_one id (some payload) view = insert id payload view

unfoldable pub overlay_staged : Dict (Option Str) → Dict Str → Dict Str
unfolding insert remove
overlay_staged [] view = view
overlay_staged ((id, payload) ∷ ids) view = overlay_staged ids (overlay_one id payload view)

unfoldable pub find_view : Bool → Str → Session → Dict Str
unfolding copy_committed overlay_staged lookup
find_view bound name s =
    let committed = copy_committed (or_empty (lookup name s.store.entries)) [] in
    if bound then overlay_staged (or_empty (lookup name s.tx.writes)) committed else committed

module _ (json : Json) where
  open json use {Value}

  abbrev matching : Dict Value → Str → Option Str → List Document → List Document
  matching filter id none later = later
  matching filter id (some payload) later =
      if matches_filter json payload filter
      then record { id = id; payload = payload } ∷ later
      else later

  -- The loop of `Find` over the sorted ids.
  unfoldable pub find_ids : Dict Value → Dict Str → List Str → List Document
  unfolding matches_filter lookup
  find_ids filter view [] = []
  find_ids filter view (id ∷ ids) = matching filter id (lookup id view) (find_ids filter view ids)

  unfoldable pub find : Bool → Str → Dict Value → Session → List Document
  unfolding find_view find_ids keys sort_strings
  find bound name filter s =
      let view = find_view bound name s in find_ids filter view (sort_strings (keys view))
