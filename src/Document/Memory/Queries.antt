-- ===== src/Document/Memory/Queries.antt =====
-- What the operations tell and change, seen through Get.
use superapi.Prelude.{
  Str, ◌≡◌, refl, Bool, true, false, not, ◌&&◌, Option, none, some, List, [], ◌∷◌, map, ◌==◌,
  ==_iff, Dict, lookup, keys, mem, mem-keys, mem-sort_strings, sort_strings, sort_strings-IsStrict,
  IsStrict, Above, if◌then◌else◌, arith,
}
use superapi.Document.Types.{Document, Json, not_found, already_exists}
use superapi.Document.Memory.{InMemoryStore, matches_filter}
use superapi.Document.Memory.Session.{
  Session, Reply, document, failed, done, get, insert_among, meanwhile, replace, delete, find,
  find_ids, find_view, id_required,
}
use superapi.Document.Memory.View.{
  IsValid, get-eq-view, view-write, insert_among-eq, write-done, replace-eq, reply-delete,
  view-delete, lookup-find_view, find_view-Distinct,
}

-- The id is in use, as Get tells it.
abbrev pub found : Reply → Bool
found (document d) = true
found _ = false

-- Insert, with whatever other goroutines do to the store between its check and its write: it writes
-- exactly when the id is given and was not in use at the check. Then the reply is a success and Get
-- returns the new document, also where another goroutine has written the id in between. Otherwise
-- the reply is the error that says why, and nothing is written. A Get of any other id tells what the
-- others have left.
pub insert_among_lem :
    (others : InMemoryStore → InMemoryStore) (b : Bool) (n m j : Str) (doc : Document) (s : Session)
    → ((insert_among others b n doc s).1 ≡ (
        if doc.id == []
        then failed id_required
        else if found (get b n doc.id s)
        then failed already_exists
        else done))
      × (get b m j (insert_among others b n doc s).0 ≡ (
          if doc.id == []
          then get b m j s
          else if n == m && doc.id == j && not (found (get b n doc.id s))
          then document doc
          else get b m j (meanwhile others s)))
insert_among_lem others b n m j doc s =
    let after = (insert_among others b n doc s).0 in
    ground (
      arith,
      insert_among-eq others b n doc s,
      get-eq-view b n doc.id s,
      get-eq-view b m j s,
      get-eq-view b m j (meanwhile others s),
      get-eq-view b m j after,
      view-write b n m j doc (meanwhile others s),
      write-done b n doc (meanwhile others s),
      ==_iff doc.id j,
    )

-- Replace with an id always succeeds, Get then returns the document, and a Get of any other id is
-- as before.
pub replace_lem :
    (b : Bool) (n m j : Str) (doc : Document) (s : Session)
    → (doc.id == []) ≡ false
    → ((replace b n doc s).1 ≡ done)
      × (get b m j (replace b n doc s).0
          ≡ (if n == m && doc.id == j then document doc else get b m j s))
replace_lem b n m j doc s h =
    let after = (replace b n doc s).0 in
    ground (
      arith,
      replace-eq b n doc s,
      get-eq-view b m j s,
      get-eq-view b m j after,
      view-write b n m j doc s,
      write-done b n doc s,
      ==_iff doc.id j,
    )

-- Delete succeeds exactly when Get finds the id, and afterwards Get finds it no more; every other
-- id is as before.
pub delete_lem :
    (b : Bool) (n m i j : Str) (s : Session)
    → ((delete b n i s).1 ≡ (if found (get b n i s) then done else failed not_found))
      × (get b m j (delete b n i s).0
          ≡ (if n == m && i == j then failed not_found else get b m j s))
delete_lem b n m i j s =
    let after = (delete b n i s).0 in
    ground (
      arith,
      reply-delete b n i s,
      view-delete b n m i j s,
      get-eq-view b n i s,
      get-eq-view b m j s,
      get-eq-view b m j after,
    )

module _ (json : Json) where
  open json use {Value}

  abbrev pub ids_of : List Document → List Str
  ids_of = map (λ d. d.id)

  -- The payload that a result of Find lists for an id.
  abbrev pub listed : Str → List Document → Option Str
  listed id [] = none
  listed id (d ∷ ds) = if d.id == id then some d.payload else listed id ds

  abbrev pub kept : Dict Value → Option Str → Option Str
  kept filter none = none
  kept filter (some payload) = if matches_filter json payload filter then some payload else none

  -- The payload that Get returns, if it matches the filter.
  abbrev pub wanted : Dict Value → Reply → Option Str
  wanted filter (document d) = kept filter (some d.payload)
  wanted filter _ = none

  listed-find_ids :
      (filter : Dict Value) (v : Dict Str) (id : Str) (ids : List Str)
      → listed id (find_ids json filter v ids)
        ≡ (if mem id ids then kept filter (lookup id v) else none)
  unfolding find_ids mem
  listed-find_ids filter v id [] = refl
  listed-find_ids filter v id (k ∷ ids) =
      ground (arith, listed-find_ids filter v id ids, ==_iff k id)

  Above-find_ids :
      (filter : Dict Value) (v : Dict Str) (s : Str) (ids : List Str)
      → Above s ids
      → Above s (ids_of (find_ids json filter v ids))
  unfolding find_ids
  Above-find_ids filter v s [] a = tt
  Above-find_ids filter v s (k ∷ ids) a = ground (arith, Above-find_ids filter v s ids a.1)

  find_ids-IsStrict :
      (filter : Dict Value) (v : Dict Str) (ids : List Str)
      → IsStrict ids
      → IsStrict (ids_of (find_ids json filter v ids))
  unfolding find_ids
  find_ids-IsStrict filter v [] i = tt
  find_ids-IsStrict filter v (k ∷ ids) i =
      ground (arith, find_ids-IsStrict filter v ids i.1, Above-find_ids filter v k ids i.0)

  -- Find lists its documents in strictly ascending order of their ids, and lists under an id the
  -- payload that Get returns if that matches the filter, and nothing else. The maps of the session
  -- have distinct keys.
  pub find_lem :
      (b : Bool) (n : Str) (filter : Dict Value) (s : Session)
      → IsValid s
      → IsStrict (ids_of (find json b n filter s))
        × ((id : Str) → listed id (find json b n filter s) ≡ wanted filter (get b n id s))
  unfolding find
  find_lem b n filter s v =
      let w = find_view b n s in
      (
        find_ids-IsStrict filter w (sort_strings (keys w))
            (sort_strings-IsStrict (keys w) (find_view-Distinct b n s)),
        λ id. ground (
          arith,
          listed-find_ids filter w id (sort_strings (keys w)),
          mem-sort_strings id (keys w),
          mem-keys id w,
          lookup-find_view b n id s v,
          get-eq-view b n id s,
        ),
      )
