-- ===== src/Document/Memory/Serial.antt =====
-- Transactions against direct runs: a callback is told the same either way, and leaves the same.
use superapi.Prelude.{
  Str, ◌≡◌, refl, ◌∙◌, sym, ap, Bool, true, false, Option, List, [], ◌∷◌, ◌==◌, Dict, lookup, keys,
  mem-keys, mem-sort_strings, sort_strings, sort_strings-IsStrict, IsStrict-ext, is_some,
  if◌then◌else◌, arith, subst,
}
use superapi.Document.Types.{Error, Document, Json}
use superapi.Document.Memory.Session.{
  Session, Reply, get, write, insert_document, replace, delete, find, find_ids, find_view,
}
use superapi.Document.Memory.Callback.{
  Call, get_call, delete_call, insert_call, replace_call, find_call, perform, Callback, ret, panic,
  call, run,
}
use superapi.Document.Memory.View.{
  view, IsValid, reply_of, get-eq-view, view-write, insert_document-eq, write-done, reply-delete,
  view-delete, lookup-find_view, find_view-Distinct,
}
use superapi.Document.Memory.Commit.{perform-IsValid}

-- Two sessions, through handles that are bound to a transaction or not, show the same documents.
abbrev pub SameView : Bool → Bool → Session → Session → Type 0
SameView b c s t = (n i : Str) → view b n i s ≡ view c n i t

module _ (json : Json) where
  open json use {Value}

  -- `Find` reads its view by id only.
  find_ids_same :
      (filter : Dict Value) (v w : Dict Str) (ids : List Str)
      → ((id : Str) → lookup id v ≡ lookup id w)
      → find_ids json filter v ids ≡ find_ids json filter w ids
  unfolding find_ids
  find_ids_same filter v w [] h = refl
  find_ids_same filter v w (id ∷ ids) h = rw (h id, find_ids_same filter v w ids h)

  find_same :
      (b c : Bool) (n : Str) (filter : Dict Value) (s t : Session)
      → IsValid s
      → IsValid t
      → SameView b c s t
      → find json b n filter s ≡ find json c n filter t
  unfolding find
  find_same b c n filter s t vs vt h =
      let v = find_view b n s in
      let w = find_view c n t in
      let agree : (id : Str) → lookup id v ≡ lookup id w =
        λ id. lookup-find_view b n id s vs ∙ h n id ∙ sym (lookup-find_view c n id t vt) in
      let ids : sort_strings (keys v) ≡ sort_strings (keys w) =
        IsStrict-ext (sort_strings (keys v)) (sort_strings (keys w))
          (sort_strings-IsStrict (keys v) (find_view-Distinct b n s))
          (sort_strings-IsStrict (keys w) (find_view-Distinct c n t))
          (λ k.
            mem-sort_strings k (keys v)
            ∙ mem-keys k v
            ∙ ap is_some (agree k)
            ∙ sym (mem-keys k w)
            ∙ sym (mem-sort_strings k (keys w))) in
      find_ids_same filter v w (sort_strings (keys v)) agree ∙ ap (find_ids json filter w) ids

write_same :
    (b c : Bool) (n : Str) (doc : Document) (s t : Session)
    → SameView b c s t
    → SameView b c (write b n doc s).0 (write c n doc t).0
write_same b c n doc s t h m j = rw (view-write, h m j, ← view-write c n m j doc t) refl

-- One call is answered alike, and keeps the views the same.
abbrev Agree : Bool → Bool → Session × Reply → Session × Reply → Type 0
Agree b c p q = (p.1 ≡ q.1) × SameView b c p.0 q.0

write-Agree :
    (b c : Bool) (n : Str) (doc : Document) (s t : Session)
    → SameView b c s t
    → Agree b c (write b n doc s) (write c n doc t)
write-Agree b c n doc s t h =
    (write-done b n doc s ∙ sym (write-done c n doc t), write_same b c n doc s t h)

if_Agree :
    (b c x : Bool) (p p' q q' : Session × Reply)
    → Agree b c p p'
    → Agree b c q q'
    → Agree b c (if x then p else q) (if x then p' else q')
if_Agree b c true p p' q q' h k = h
if_Agree b c false p p' q q' h k = k

insert-Agree :
    (b c : Bool) (n : Str) (doc : Document) (s t : Session)
    → SameView b c s t
    → Agree b c (insert_document b n doc s) (insert_document c n doc t)
insert-Agree b c n doc s t h = rw insert_document-eq (
    rw insert_document-eq (
      rw (h n doc.id) (
        if_Agree b c (doc.id == []) _ _ _ _ (refl, h)
          (if_Agree b c (is_some (view c n doc.id t)) _ _ _ _ (refl, h)
            (write-Agree b c n doc s t h)))))

replace-Agree :
    (b c : Bool) (n : Str) (doc : Document) (s t : Session)
    → SameView b c s t
    → Agree b c (replace b n doc s) (replace c n doc t)
unfolding replace
replace-Agree b c n doc s t h =
    if_Agree b c (doc.id == []) _ _ _ _ (refl, h) (write-Agree b c n doc s t h)

delete-Agree :
    (b c : Bool) (n i : Str) (s t : Session)
    → SameView b c s t
    → Agree b c (delete b n i s) (delete c n i t)
delete-Agree b c n i s t h = (
  ground (arith, reply-delete b n i s, reply-delete c n i t, h n i),
  λ m j. ground (arith, view-delete b n m i j s, view-delete c n m i j t, h m j),
)

module _ (json : Json) where
  perform-Agree :
      (b c : Bool) (x : Call json) (s t : Session)
      → IsValid s
      → IsValid t
      → SameView b c s t
      → Agree b c (perform json b x s) (perform json c x t)
  unfolding perform
  perform-Agree b c (get_call n i) s t v w h =
      (get-eq-view b n i s ∙ ap (reply_of i) (h n i) ∙ sym (get-eq-view c n i t), h)
  perform-Agree b c (delete_call n i) s t v w h = delete-Agree b c n i s t h
  perform-Agree b c (insert_call n doc) s t v w h = insert-Agree b c n doc s t h
  perform-Agree b c (replace_call n doc) s t v w h = replace-Agree b c n doc s t h
  perform-Agree b c (find_call n filter) s t v w h =
      (ap Reply.documents (find_same json b c n filter s t v w h), h)

  -- Two runs of one callback: the same outcome, the same view at the end, and distinct keys.
  pub record RunsAlike (b c : Bool) (p q : Session × Option (Option Error)) : Type 0 where
    pub outcome : p.1 ≡ q.1
    pub views : SameView b c p.0 q.0
    pub left : IsValid p.0
    pub right : IsValid q.0

  pub run_alike :
      (b c : Bool) (fn : Callback json) (s t : Session)
      → IsValid s
      → IsValid t
      → SameView b c s t
      → RunsAlike b c (run json b fn s) (run json c fn t)
  unfolding run
  run_alike b c (ret e) s t v w h = record { outcome = refl; views = h; left = v; right = w }
  run_alike b c panic s t v w h = record { outcome = refl; views = h; left = v; right = w }
  run_alike b c (call x k) s t v w h =
      let both = perform-Agree b c x s t v w h in
      let s' = (perform json b x s).0 in
      let reply = (perform json b x s).1 in
      subst (λ r. RunsAlike b c (run json b (k reply) s') (run json c (k r) (perform json c x t).0))
        both.0
        (run_alike b c (k reply) s' (perform json c x t).0 (perform-IsValid json b x s v)
          (perform-IsValid json c x t w) both.1)

  -- Inside a transaction the store itself does not change.
  perform_bound-store : (x : Call json) (s : Session) → (perform json true x s).0.store ≡ s.store
  unfolding perform insert_document replace delete write get
  perform_bound-store (get_call n i) s = refl
  perform_bound-store (delete_call n i) s = ground arith
  perform_bound-store (insert_call n doc) s = ground arith
  perform_bound-store (replace_call n doc) s = ground arith
  perform_bound-store (find_call n filter) s = refl

  pub run_bound-store : (fn : Callback json) (s : Session) → (run json true fn s).0.store ≡ s.store
  unfolding run
  run_bound-store (ret e) s = refl
  run_bound-store panic s = refl
  run_bound-store (call x k) s =
      run_bound-store (k (perform json true x s).1) (perform json true x s).0
      ∙ perform_bound-store x s
