-- ===== src/Document/Memory.antt =====
-- internal/storage/document/memory.go: the in-memory store, its staged transactions and the handle
-- of a collection. A reading, a writing and the commit each run under the store's lock, and are run one
-- after the other here; Insert is a reading and a writing, so others may come in between. cloneBytes
-- copies a payload, and payloads are values here.
pub mod Session
pub mod Callback
pub mod View
pub mod Commit
pub mod Serial
pub mod Atomicity
pub mod Queries
mod Tests
use superapi.Prelude.{
  Str, String, str, ◌≡◌, Bool, true, false, ◌&&◌, Option, none, some, List, [], ◌∷◌, ◌==◌, Dict,
  lookup, insert, remove, keys, nested_get, nested_put, nested_remove, in_column, or_empty,
  sort_strings, if◌then◌else◌,
}
use superapi.Document.Types.{Error, not_found, already_exists, other, Document, Json}

-- data: collection -> id -> payload
pub record InMemoryStore : Type 0 where
  pub entries : Dict (Dict Str)

unfoldable pub new_in_memory_store : InMemoryStore
new_in_memory_store = record { entries = [] }

-- writes: collection -> id -> payload, `none` for a staged delete
pub record MemoryTx : Type 0 where
  pub writes : Dict (Dict (Option Str))

unfoldable pub stage : Str → Str → Option Str → MemoryTx → MemoryTx
unfolding nested_put insert lookup
stage collection id payload t = record { writes = nested_put collection id payload t.writes }

unfoldable pub staged : Str → Str → MemoryTx → Option (Option Str)
unfolding nested_get lookup
staged collection id t = nested_get collection id t.writes

-- One staged write of a commit.
unfoldable pub commit_one : Str → Str → Option Str → Dict (Dict Str) → Dict (Dict Str)
unfolding nested_put nested_remove insert remove lookup
commit_one collection id none d = nested_remove collection id d
commit_one collection id (some payload) d = nested_put collection id payload d

-- The two loops of `commit`.
unfoldable pub commit_ids : Str → Dict (Option Str) → Dict (Dict Str) → Dict (Dict Str)
unfolding commit_one
commit_ids collection [] d = d
commit_ids collection ((id, payload) ∷ ids) d =
    commit_ids collection ids (commit_one collection id payload d)

unfoldable pub commit_all : Dict (Dict (Option Str)) → Dict (Dict Str) → Dict (Dict Str)
unfolding commit_ids
commit_all [] d = d
commit_all ((collection, ids) ∷ writes) d = commit_all writes (commit_ids collection ids d)

unfoldable pub commit : MemoryTx → InMemoryStore → InMemoryStore
unfolding commit_all
commit tx s = record { entries = commit_all tx.writes s.entries }

-- The filter of `Find`: exact equality of top-level fields, as JSON texts.
module _ (json : Json) where
  open json use {Value, unmarshal, marshal}

  abbrev same_text : Option Str → Option Str → Bool
  same_text (some a) (some b) = a == b
  same_text _ _ = false

  unfoldable pub json_equal : Value → Value → Bool
  unfolding ◌==◌
  json_equal got want = same_text (marshal got) (marshal want)

  abbrev field_matches : Option Value → Value → Bool
  field_matches none want = false
  field_matches (some got) want = json_equal got want

  unfoldable pub fields_match : Dict Value → Dict Value → Bool
  unfolding json_equal lookup
  fields_match decoded [] = true
  fields_match decoded ((key, want) ∷ filter) =
      field_matches (lookup key decoded) want && fields_match decoded filter

  abbrev decoded_matches : Option (Dict Value) → Dict Value → Bool
  decoded_matches none filter = false
  decoded_matches (some decoded) filter = fields_match decoded filter

  unfoldable pub matches_filter : Str → Dict Value → Bool
  unfolding fields_match
  matches_filter payload [] = true
  matches_filter payload (f ∷ filter) = decoded_matches (unmarshal payload) (f ∷ filter)
