-- ===== src/Document/Memory/Tests.antt =====
-- The document store on small inputs, and the theorems at them.
use superapi.Prelude.{
  Str, String, str, ◌≡◌, ◌≢◌, refl, ap, true, false, none, some, [], ◌∷◌, InnerDistinct, keys, mem,
  ◌==◌, IsStrict,
}
use superapi.Document.Types.{Error, other, Document, Json}
use superapi.Document.Memory.{InMemoryStore}
use superapi.Document.Memory.Session.{
  Session, Reply, document, done, failed, get, insert_document, insert_among, replace, delete, find,
  stored,
}
use superapi.Document.Memory.Callback.{
  delete_call, insert_call, replace_call, find_call, Callback, ret, call, begin, with_tx, run_unit,
  committed, returned,
}
use superapi.Document.Memory.View.{IsValid}
use superapi.Document.Memory.Atomicity.{with_tx-outcome, with_tx_serial, with_tx_rollback}
use superapi.Document.Memory.Queries.{
  ids_of, listed, wanted, insert_among_lem, replace_lem, delete_lem, find_lem,
}

-- A payload with one field, and values that are JSON texts already.
abbrev one_field : Json
one_field = record {
  Value = Str;
  unmarshal = λ payload. some ((str "v", payload) ∷ []);
  marshal = λ v. some v;
}

abbrev doc : String → String → Document
doc id payload = record { id = str id; payload = str payload }

abbrev users : Str
users = str "users"

abbrev seeded : InMemoryStore
seeded = record { entries = (users, (str "b", str "2") ∷ (str "a", str "1") ∷ []) ∷ [] }

abbrev seeded_session : Session
seeded_session = begin seeded

-- Deletes "a", and inserts "c" if that has worked; then asks for everything.
abbrev after_delete : Reply → Callback one_field
after_delete done =
    call (insert_call users (doc "c" "3")) (λ _. call (find_call users []) (λ _. ret none))
after_delete _ = ret (some (other (str "lost")))

abbrev move_a : Callback one_field
move_a = call (delete_call users (str "a")) after_delete

abbrev fails_late : Callback one_field
fails_late = call (replace_call users (doc "a" "9")) (λ _. ret (some (other (str "no"))))

moved :
    with_tx one_field (some move_a) seeded
    ≡ (record { entries = (users, (str "b", str "2") ∷ (str "c", str "3") ∷ []) ∷ [] }, committed)
unfolding with_tx
moved = refl

failed_late : with_tx one_field (some fails_late) seeded ≡ (seeded, returned (other (str "no")))
unfolding with_tx
failed_late = refl

found_all : find one_field false users [] seeded_session ≡ doc "a" "1" ∷ doc "b" "2" ∷ []
unfolding find
found_all = refl

found_one : find one_field false users ((str "v", str "2") ∷ []) seeded_session ≡ doc "b" "2" ∷ []
unfolding find
found_one = refl

seeded-InnerDistinct : InnerDistinct seeded.entries
unfolding keys mem ◌==◌
seeded-InnerDistinct = ((refl, (refl, tt)), tt)

seeded-IsValid : IsValid seeded_session
unfolding keys
seeded-IsValid = record { collections = seeded-InnerDistinct; names = tt; staged_ids = tt }

with_tx-outcome_example :
    (with_tx one_field (some fails_late) seeded).1
    ≡ (run_unit one_field false (some fails_late) seeded).1
with_tx-outcome_example = with_tx-outcome one_field fails_late seeded seeded-InnerDistinct

with_tx_serial_example :
    stored users (str "c") (with_tx one_field (some move_a) seeded).0
    ≡ stored users (str "c") (run_unit one_field false (some move_a) seeded).0
with_tx_serial_example =
    with_tx_serial one_field move_a seeded seeded-InnerDistinct (ap (λ r. r.1) moved) users
      (str "c")

did_not_commit : (with_tx one_field (some fails_late) seeded).1 ≢ committed
unfolding with_tx
did_not_commit e = cc

with_tx_rollback_example : (with_tx one_field (some fails_late) seeded).0 ≡ seeded
with_tx_rollback_example = with_tx_rollback one_field (some fails_late) seeded did_not_commit

-- Another goroutine inserts "c" between the check and the write.
abbrev other_insert : InMemoryStore → InMemoryStore
other_insert store = (insert_document false users (doc "c" "8") (begin store)).0.store

other_succeeds : (insert_document false users (doc "c" "8") seeded_session).1 ≡ done
unfolding insert_document
other_succeeds = refl

-- Both inserts of the id succeed, and the document of the other one is lost.
insert_among_lem_example :
    ((insert_among other_insert false users (doc "c" "7") seeded_session).1 ≡ done)
    × (get false users
          (str "c")
          (insert_among other_insert false users (doc "c" "7") seeded_session).0
        ≡ document (doc "c" "7"))
unfolding get ◌==◌
insert_among_lem_example =
    insert_among_lem other_insert false users users (str "c") (doc "c" "7") seeded_session

already_there :
    (insert_document true users (doc "a" "7") seeded_session).1 ≡ failed Error.already_exists
unfolding insert_document
already_there = refl

replace_lem_example :
    ((replace true users (doc "a" "7") seeded_session).1 ≡ done)
    × (get true users (str "a") (replace true users (doc "a" "7") seeded_session).0
        ≡ document (doc "a" "7"))
unfolding ◌==◌
replace_lem_example = replace_lem true users users (str "a") (doc "a" "7") seeded_session refl

delete_lem_example :
    ((delete true users (str "a") seeded_session).1 ≡ done)
    × (get true users (str "b") (delete true users (str "a") seeded_session).0
        ≡ get true users (str "b") seeded_session)
unfolding get ◌==◌
delete_lem_example = delete_lem true users users (str "a") (str "b") seeded_session

find_lem_example :
    IsStrict
      (ids_of one_field (find one_field false users ((str "v", str "2") ∷ []) seeded_session))
    × ((id : Str)
        → listed one_field id (find one_field false users ((str "v", str "2") ∷ []) seeded_session)
          ≡ wanted one_field ((str "v", str "2") ∷ []) (get false users id seeded_session))
find_lem_example =
    find_lem one_field false users ((str "v", str "2") ∷ []) seeded_session seeded-IsValid
