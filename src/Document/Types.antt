-- ===== src/Document/Types.antt =====
-- internal/storage/document/store.go: documents, filters and errors.
use superapi.Prelude.{Str, Option, Dict}

pub data Error : Type 0 where
  -- ErrNotFound, ErrAlreadyExists
  not_found already_exists : Error
  -- errors.New of a text, and any error of a callback
  other : Str → Error

pub record Document : Type 0 where
  pub id : Str
  pub payload : Str

-- What the store uses of encoding/json: json.Unmarshal into a map[string]any (`none` is its error),
-- and json.Marshal of one value.
pub record Json : Type 1 where
  pub Value : Type 0
  pub unmarshal : Str → Option (Dict Value)
  pub marshal : Value → Option Str
