-- ===== src/Document/Memory/Commit.antt =====
-- The operations keep the keys distinct, and a commit makes the transaction's view the store's.
use superapi.Prelude.{
  Str, ◌≡◌, refl, Bool, true, false, ◌&&◌, Option, none, some, [], ◌∷◌, ◌==◌, ==_iff, Dict, lookup,
  keys, mem-keys, Distinct, nested_get, nested_get-put, nested_get-remove, nested_put-InnerDistinct,
  nested_remove-InnerDistinct, nested_put-Distinct, InnerDistinct, is_some, if◌then◌else◌, arith,
  Bool-cases, inl, inr,
}
use superapi.Document.Types.{Document, Json}
use superapi.Document.Memory.{stage, staged, commit_one, commit_ids, commit_all, commit}
use superapi.Document.Memory.Session.{
  Session, Reply, stored, write, insert_document, replace, delete,
}
use superapi.Document.Memory.Callback.{
  Call, get_call, delete_call, insert_call, replace_call, find_call, perform,
}
use superapi.Document.Memory.View.{view, over, IsValid, insert_document-eq}

write-IsValid :
    (b : Bool) (n : Str) (doc : Document) (s : Session) → IsValid s → IsValid (write b n doc s).0
unfolding write stage
write-IsValid true n doc s v = record {
  collections = v.collections;
  names = nested_put-Distinct n doc.id (some doc.payload) s.tx.writes v.names;
  staged_ids = nested_put-InnerDistinct n doc.id (some doc.payload) s.tx.writes v.staged_ids;
}
write-IsValid false n doc s v = record {
  collections = nested_put-InnerDistinct n doc.id doc.payload s.store.entries v.collections;
  names = v.names;
  staged_ids = v.staged_ids;
}

insert_document-IsValid :
    (b : Bool) (n : Str) (doc : Document) (s : Session)
    → IsValid s
    → IsValid (insert_document b n doc s).0
insert_document-IsValid b n doc s v = rw insert_document-eq (elim (Bool-cases (doc.id == [])) [
  | inl e ↦ rw e v
  | inr e ↦ rw e (elim (Bool-cases (is_some (view b n doc.id s))) [
    | inl k ↦ rw k v
    | inr k ↦ rw k (write-IsValid b n doc s v)
  ])
])

replace-IsValid :
    (b : Bool) (n : Str) (doc : Document) (s : Session) → IsValid s → IsValid (replace b n doc s).0
unfolding replace
replace-IsValid b n doc s v = elim (Bool-cases (doc.id == [])) [
  | inl e ↦ rw e v
  | inr e ↦ rw e (write-IsValid b n doc s v)
]

branch-IsValid :
    (c : Bool) (p q : Session × Reply) → IsValid p.0 → IsValid q.0 → IsValid (if c then p else q).0
branch-IsValid true p q v w = v
branch-IsValid false p q v w = w

delete-IsValid : (b : Bool) (n i : Str) (s : Session) → IsValid s → IsValid (delete b n i s).0
unfolding delete stage
delete-IsValid true n i s v =
    branch-IsValid _ _ _
      (record {
        collections = v.collections;
        names = nested_put-Distinct n i none s.tx.writes v.names;
        staged_ids = nested_put-InnerDistinct n i none s.tx.writes v.staged_ids;
      })
      v
delete-IsValid false n i s v =
    branch-IsValid _ _ _
      (record {
        collections = nested_remove-InnerDistinct n i s.store.entries v.collections;
        names = v.names;
        staged_ids = v.staged_ids;
      })
      v

pub perform-IsValid :
    (json : Json) (b : Bool) (c : Call json) (s : Session)
    → IsValid s
    → IsValid (perform json b c s).0
unfolding perform
perform-IsValid json b (get_call n i) s v = v
perform-IsValid json b (delete_call n i) s v = delete-IsValid b n i s v
perform-IsValid json b (insert_call n doc) s v = insert_document-IsValid b n doc s v
perform-IsValid json b (replace_call n doc) s v = replace-IsValid b n doc s v
perform-IsValid json b (find_call n f) s v = v

-- One staged write, and those of one collection: they touch their own ids only.
nested_get-commit_one :
    (c n i j : Str) (p : Option Str) (d : Dict (Dict Str))
    → nested_get n j (commit_one c i p d) ≡ (if c == n && i == j then p else nested_get n j d)
unfolding commit_one
nested_get-commit_one c n i j none d = nested_get-remove c n i j d
nested_get-commit_one c n i j (some p) d = nested_get-put c n i j p d

nested_get-commit_ids :
    (c n j : Str) (ids : Dict (Option Str)) (d : Dict (Dict Str))
    → Distinct (keys ids)
    → nested_get n j (commit_ids c ids d)
      ≡ (if c == n then over (lookup j ids) (nested_get n j d) else nested_get n j d)
unfolding commit_ids lookup keys
nested_get-commit_ids c n j [] d h = ground arith
nested_get-commit_ids c n j ((i, p) ∷ ids) d h = ground (
  arith,
  ==_iff i j,
  ==_iff c n,
  nested_get-commit_ids c n j ids (commit_one c i p d) h.1,
  nested_get-commit_one c n i j p d,
  mem-keys i ids,
  h.0,
)

nested_get-commit_all :
    (n j : Str) (writes : Dict (Dict (Option Str))) (d : Dict (Dict Str))
    → Distinct (keys writes)
    → InnerDistinct writes
    → nested_get n j (commit_all writes d) ≡ over (nested_get n j writes) (nested_get n j d)
unfolding commit_all nested_get lookup keys
nested_get-commit_all n j [] d h k = refl
nested_get-commit_all n j ((c, ids) ∷ writes) d h k = ground (
  arith,
  ==_iff c n,
  nested_get-commit_all n j writes (commit_ids c ids d) h.1 k.1,
  nested_get-commit_ids c n j ids d k.0,
  mem-keys c writes,
  h.0,
)

-- After the commit the store holds what the transaction saw.
pub stored-commit :
    (n j : Str) (s : Session) → IsValid s → stored n j (commit s.tx s.store) ≡ view true n j s
unfolding stored commit view staged
stored-commit n j s v = nested_get-commit_all n j s.tx.writes s.store.entries v.names v.staged_ids
