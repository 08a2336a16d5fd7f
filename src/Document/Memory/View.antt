-- ===== src/Document/Memory/View.antt =====
-- What a handle sees of a store and a transaction: the staged write of an id if there is one, and
-- the committed document otherwise. Every operation is told by this view.
use superapi.Prelude.{
  Str, ◌≡◌, refl, Bool, true, false, ◌&&◌, Option, none, some, [], ◌∷◌, ◌==◌, ==_iff, Dict, lookup,
  insert, remove, keys, lookup-insert, lookup-remove, mem, Distinct, mem-keys, is_some,
  nested_get-put, nested_get-remove, or_empty, InnerDistinct, column-Distinct, insert-Distinct,
  remove-Distinct, if◌then◌else◌, arith,
}
use superapi.Document.Types.{Document, not_found, already_exists}
use superapi.Document.Memory.{InMemoryStore, staged}
use superapi.Document.Memory.Session.{
  Session, Reply, document, failed, done, stored, get, write, insert_document, insert_among,
  meanwhile, replace, delete, id_required, copy_committed, overlay_staged, find_view,
}

abbrev pub over : Option (Option Str) → Option Str → Option Str
over none committed = committed
over (some payload) committed = payload

unfoldable pub view : Bool → Str → Str → Session → Option Str
unfolding staged stored
view bound name id s =
    if bound then over (staged name id s.tx) (stored name id s.store) else stored name id s.store

-- What a reader of one id is told.
abbrev pub reply_of : Str → Option Str → Reply
reply_of id none = failed not_found
reply_of id (some payload) = document (record { id = id; payload = payload })

pub get-eq-view : (b : Bool) (n i : Str) (s : Session) → get b n i s ≡ reply_of i (view b n i s)
unfolding get view
get-eq-view b n i s = ground arith

pub view-write :
    (b : Bool) (n m j : Str) (doc : Document) (s : Session)
    → view b m j (write b n doc s).0
      ≡ (if n == m && doc.id == j then some doc.payload else view b m j s)
unfolding view write
view-write true n m j doc s =
    ground (arith, nested_get-put n m doc.id j (some doc.payload) s.tx.writes)
view-write false n m j doc s =
    ground (arith, nested_get-put n m doc.id j doc.payload s.store.entries)

-- The state and the reply of an insert, a replace and a delete.
pub insert_among-eq :
    (others : InMemoryStore → InMemoryStore) (b : Bool) (n : Str) (doc : Document) (s : Session)
    → insert_among others b n doc s ≡ (
        if doc.id == []
        then (s, failed id_required)
        else if is_some (view b n doc.id s)
        then (meanwhile others s, failed already_exists)
        else write b n doc (meanwhile others s))
unfolding insert_among get view
insert_among-eq others b n doc s = ground arith

pub insert_document-eq :
    (b : Bool) (n : Str) (doc : Document) (s : Session)
    → insert_document b n doc s ≡ (
        if doc.id == []
        then (s, failed id_required)
        else if is_some (view b n doc.id s)
        then (s, failed already_exists)
        else write b n doc s)
unfolding insert_document
insert_document-eq b n doc s = insert_among-eq (λ store. store) b n doc s

pub replace-eq :
    (b : Bool) (n : Str) (doc : Document) (s : Session)
    → replace b n doc s ≡ (if doc.id == [] then (s, failed id_required) else write b n doc s)
unfolding replace
replace-eq b n doc s = refl

pub write-done : (b : Bool) (n : Str) (doc : Document) (s : Session) → (write b n doc s).1 ≡ done
unfolding write
write-done true n doc s = refl
write-done false n doc s = refl

pub reply-delete :
    (b : Bool) (n i : Str) (s : Session)
    → (delete b n i s).1 ≡ (if is_some (view b n i s) then done else failed not_found)
unfolding delete view
reply-delete b n i s = ground arith

pub view-delete :
    (b : Bool) (n m i j : Str) (s : Session)
    → view b m j (delete b n i s).0 ≡ (if n == m && i == j then none else view b m j s)
unfolding delete view
view-delete true n m i j s =
    ground (arith, ==_iff n m, ==_iff i j, nested_get-put n m i j none s.tx.writes)
view-delete false n m i j s =
    ground (arith, ==_iff n m, ==_iff i j, nested_get-remove n m i j s.store.entries)

-- The keys of every collection and of every staged collection are distinct, as in any Go map.
pub record IsValid (s : Session) : Type 0 where
  pub collections : InnerDistinct s.store.entries
  pub names : Distinct (keys s.tx.writes)
  pub staged_ids : InnerDistinct s.tx.writes

lookup-fresh : {V : Type 0} (k : Str) (m : Dict V) → mem k (keys m) ≡ false → lookup k m ≡ none
lookup-fresh k m h = ground (arith, mem-keys k m)

abbrev first : Option Str → Option Str → Option Str
first none other = other
first (some p) other = some p

lookup-copy_committed :
    (id : Str) (col acc : Dict Str)
    → Distinct (keys col)
    → lookup id (copy_committed col acc) ≡ first (lookup id col) (lookup id acc)
unfolding copy_committed lookup keys
lookup-copy_committed id [] acc d = refl
lookup-copy_committed id ((i, p) ∷ col) acc d = ground (
  arith,
  ==_iff i id,
  lookup-copy_committed id col (insert i p acc) d.1,
  lookup-insert i id p acc,
  lookup-fresh i col d.0,
)

lookup-overlay_staged :
    (id : Str) (ids : Dict (Option Str)) (acc : Dict Str)
    → Distinct (keys ids)
    → lookup id (overlay_staged ids acc) ≡ over (lookup id ids) (lookup id acc)
unfolding overlay_staged lookup keys
lookup-overlay_staged id [] acc d = refl
lookup-overlay_staged id ((i, none) ∷ ids) acc d = ground (
  arith,
  ==_iff i id,
  lookup-overlay_staged id ids (remove i acc) d.1,
  lookup-remove i id acc,
  lookup-fresh i ids d.0,
)
lookup-overlay_staged id ((i, some p) ∷ ids) acc d = ground (
  arith,
  ==_iff i id,
  lookup-overlay_staged id ids (insert i p acc) d.1,
  lookup-insert i id p acc,
  lookup-fresh i ids d.0,
)

-- The view that `Find` builds is the view that `Get` reads.
pub lookup-find_view :
    (b : Bool) (n id : Str) (s : Session) → IsValid s → lookup id (find_view b n s) ≡ view b n id s
unfolding find_view view lookup
lookup-find_view true n id s v = ground (
  arith,
  lookup-overlay_staged id (or_empty (lookup n s.tx.writes))
      (copy_committed (or_empty (lookup n s.store.entries)) [])
      (column-Distinct n s.tx.writes v.staged_ids),
  lookup-copy_committed id (or_empty (lookup n s.store.entries)) []
      (column-Distinct n s.store.entries v.collections),
)
lookup-find_view false n id s v = ground (
  arith,
  lookup-copy_committed id (or_empty (lookup n s.store.entries)) []
      (column-Distinct n s.store.entries v.collections),
)

copy_committed-Distinct :
    (col acc : Dict Str) → Distinct (keys acc) → Distinct (keys (copy_committed col acc))
unfolding copy_committed
copy_committed-Distinct [] acc d = d
copy_committed-Distinct ((i, p) ∷ col) acc d =
    copy_committed-Distinct col (insert i p acc) (insert-Distinct i p acc d)

overlay_staged-Distinct :
    (ids : Dict (Option Str)) (acc : Dict Str)
    → Distinct (keys acc)
    → Distinct (keys (overlay_staged ids acc))
unfolding overlay_staged
overlay_staged-Distinct [] acc d = d
overlay_staged-Distinct ((i, none) ∷ ids) acc d =
    overlay_staged-Distinct ids (remove i acc) (remove-Distinct i acc d)
overlay_staged-Distinct ((i, some p) ∷ ids) acc d =
    overlay_staged-Distinct ids (insert i p acc) (insert-Distinct i p acc d)

pub find_view-Distinct : (b : Bool) (n : Str) (s : Session) → Distinct (keys (find_view b n s))
unfolding find_view keys
find_view-Distinct true n s =
    overlay_staged-Distinct (or_empty (lookup n s.tx.writes))
      (copy_committed (or_empty (lookup n s.store.entries)) [])
      (copy_committed-Distinct (or_empty (lookup n s.store.entries)) [] tt)
find_view-Distinct false n s = copy_committed-Distinct (or_empty (lookup n s.store.entries)) [] tt
