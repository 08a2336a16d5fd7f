-- ===== src/Cache/Writer/Plain.antt =====
-- Handlers that set headers, then write a status or none, then the body: what is kept of their
-- response is what the client gets.
use superapi.Prelude.{
  ℕ, ◌+◌, Str, ◌≡◌, ◌⊎◌, refl, ap, sym, ◌∙◌, true, false, Option, none, some, List, [], ◌∷◌, ◌++◌,
  Dict, insert, map, length, eqb, ltb, append_nil, append_assoc, arith, inl, inr, Bool-cases,
}
use superapi.Cache.Writer.{
  Call, set_header, write_header, write, flush, CachingResponseWriter, capture, capture_all,
  new_caching_response_writer, Received, Wire, deliver, deliver_all, unsent, received,
  content_type_of, written,
}

abbrev sets : Dict Str → List Call
sets = map (λ h. set_header h.0 h.1)

abbrev pub started : Option ℕ → List Call
started none = []
started (some status) = write_header status ∷ []

abbrev writes : List Str → List Call
writes = map write

-- Headers, a status that is written or left out, and the pieces of the body.
abbrev pub plain : Dict Str → Option ℕ → List Str → List Call
plain headers status chunks = sets headers ++ (started status ++ writes chunks)

abbrev pub status_of : Option ℕ → ℕ
status_of none = 200
status_of (some status) = status

unfoldable pub joined : List Str → Str
joined [] = []
joined (c ∷ cs) = c ++ joined cs

unfoldable pub headers_after : Dict Str → Dict Str → Dict Str
unfolding insert
headers_after [] header = header
headers_after (h ∷ hs) header = headers_after hs (insert h.0 h.1 header)

capture_all-sets :
    (hs : Dict Str) (rest : List Call) (w : CachingResponseWriter)
    → capture_all (sets hs ++ rest) w
      ≡ capture_all rest (record w { header = headers_after hs w.header })
unfolding capture_all capture headers_after
capture_all-sets [] rest w = refl
capture_all-sets (h ∷ hs) rest w =
    capture_all-sets hs rest (record w { header = insert h.0 h.1 w.header })

deliver_all-sets :
    (hs : Dict Str) (rest : List Call) (w : Wire)
    → deliver_all (sets hs ++ rest) w
      ≡ deliver_all rest (record w { header = headers_after hs w.header })
unfolding deliver_all deliver headers_after
deliver_all-sets [] rest w = refl
deliver_all-sets (h ∷ hs) rest w =
    deliver_all-sets hs rest (record w { header = insert h.0 h.1 w.header })

writes-too_large :
    (cs : List Str) (w : CachingResponseWriter)
    → w.too_large ≡ true
    → (capture_all (writes cs) w).too_large ≡ true
unfolding capture_all capture
writes-too_large [] w h = h
writes-too_large (c ∷ cs) w h =
    let same : capture (write c) w ≡ w = ground arith in
    ap (λ x. (capture_all (writes cs) x).too_large) same ∙ writes-too_large cs w h

-- What a write does: nothing is lost, or the response has become too large.
write_step :
    (c : Str) (w : CachingResponseWriter)
    → eqb w.max_bytes 0 ≡ false
    → ((capture (write c) w).too_large ≡ true)
      ⊎ (capture (write c) w ≡ record w { body = w.body ++ c })
unfolding capture
write_step c w m = elim (Bool-cases w.too_large) [
  | inl lost ↦ inl (rw (m, lost) refl)
  | inr fits ↦ elim (Bool-cases (ltb w.max_bytes (length w.body + length c))) [
    | inl large ↦ inl (rw (m, fits, large) refl)
    | inr small ↦ inr (rw (m, fits, small) refl)
  ]
]

capture_all-writes :
    (cs : List Str) (w : CachingResponseWriter)
    → eqb w.max_bytes 0 ≡ false
    → (capture_all (writes cs) w).too_large ≡ false
    → capture_all (writes cs) w ≡ record w { body = w.body ++ joined cs }
unfolding capture_all joined
capture_all-writes [] w m h = ap (λ (b : Str). record w { body = b }) (sym (append_nil w.body))
capture_all-writes (c ∷ cs) w m h = elim (write_step c w m) [
  | inl lost ↦
      let still = writes-too_large cs (capture (write c) w) lost in
      let impossible : true ≡ false = sym still ∙ h in absurd (ground arith)
  | inr same ↦
      let kept : CachingResponseWriter = record w { body = w.body ++ c } in
      let h' = ap (λ x. (capture_all (writes cs) x).too_large) (sym same) ∙ h in
      ap (capture_all (writes cs)) same
      ∙ capture_all-writes cs kept m h'
      ∙ ap (λ (b : Str). record w { body = b }) (append_assoc w.body c (joined cs))
]

deliver_all-writes :
    (cs : List Str) (w : Wire) → w.sent ≡ true → deliver_all (writes cs) w ≡ written (joined cs) w
unfolding deliver_all joined
deliver_all-writes [] w h =
    ap (λ (b : Str). record w { received = record w.received { body = b } })
      (sym (append_nil w.received.body))
deliver_all-writes (c ∷ cs) w h =
    let first : deliver (write c) w ≡ written c w = unfold deliver in rw h refl in
    ap (deliver_all (writes cs)) first
    ∙ deliver_all-writes cs (written c w) h
    ∙ ap (λ (b : Str). record w { received = record w.received { body = b } })
        (append_assoc w.received.body c (joined cs))

-- What the client gets of such a handler.
abbrev pub answer_of : Dict Str → Option ℕ → List Str → Received
answer_of headers status chunks = record {
  status = status_of status;
  body = joined chunks;
  content_type = content_type_of (headers_after headers []);
}

abbrev sent_with : Dict Str → ℕ → Wire
sent_with headers status = record {
  header = headers;
  sent = true;
  received = record { status = status; body = []; content_type = content_type_of headers };
}

-- Once the status is out, the rest is the body.
rest_of :
    (headers : Dict Str) (status : ℕ) (cs : List Str)
    → (deliver flush (deliver_all (writes cs) (sent_with headers status))).received
      ≡ record { status = status; body = joined cs; content_type = content_type_of headers }
unfolding deliver
rest_of headers status cs =
    ap (λ w. (deliver flush w).received) (deliver_all-writes cs (sent_with headers status) refl)

started_rest :
    (headers : Dict Str) (status : Option ℕ) (cs : List Str)
    → (deliver flush
        (deliver_all (started status ++ writes cs) (record unsent { header = headers }))).received
      ≡ record {
        status = status_of status;
        body = joined cs;
        content_type = content_type_of headers;
      }
unfolding deliver_all deliver joined
started_rest headers none [] = refl
started_rest headers none (c ∷ cs) =
    ap (λ w. (deliver flush w).received)
      (deliver_all-writes cs (written c (sent_with headers 200)) refl)
started_rest headers (some status) cs = rest_of headers status cs

pub received-plain :
    (headers : Dict Str) (status : Option ℕ) (chunks : List Str)
    → received (plain headers status chunks) ≡ answer_of headers status chunks
unfolding received
received-plain headers status chunks =
    ap (λ w. (deliver flush w).received)
      (deliver_all-sets headers (started status ++ writes chunks) unsent)
    ∙ started_rest (headers_after headers []) status chunks

abbrev fresh : ℕ → List ℕ → Dict Str → CachingResponseWriter
fresh max_bytes statuses header = record {
  header = header;
  status_code = 200;
  max_bytes = max_bytes;
  cache_statuses = statuses;
  body = [];
  too_large = false;
  streaming = false;
}

capture_all-started :
    (max_bytes : ℕ) (statuses : List ℕ) (header : Dict Str) (status : Option ℕ) (chunks : List Str)
    → eqb max_bytes 0 ≡ false
    → (capture_all (started status ++ writes chunks) (fresh max_bytes statuses header)).too_large
      ≡ false
    → capture_all (started status ++ writes chunks) (fresh max_bytes statuses header)
      ≡ record (fresh max_bytes statuses header) {
        status_code = status_of status;
        body = joined chunks;
      }
unfolding capture_all capture
capture_all-started max_bytes statuses header none chunks m h =
    capture_all-writes chunks (fresh max_bytes statuses header) m h
capture_all-started max_bytes statuses header (some status) chunks m h =
    capture_all-writes chunks (record (fresh max_bytes statuses header) { status_code = status }) m
      h

-- What the cache keeps of it, unless it is too large.
pub capture_all-plain :
    (max_bytes : ℕ) (statuses : List ℕ) (headers : Dict Str) (status : Option ℕ) (chunks : List Str)
    → eqb max_bytes 0 ≡ false
    → (capture_all
        (plain headers status chunks)
        (new_caching_response_writer max_bytes statuses)).too_large
      ≡ false
    → capture_all (plain headers status chunks) (new_caching_response_writer max_bytes statuses)
      ≡ record (new_caching_response_writer max_bytes statuses) {
        header = headers_after headers [];
        status_code = status_of status;
        body = joined chunks;
      }
unfolding new_caching_response_writer
capture_all-plain max_bytes statuses headers status chunks m h =
    let behind =
      capture_all-sets headers (started status ++ writes chunks) (fresh max_bytes statuses []) in
    behind
    ∙ capture_all-started max_bytes statuses (headers_after headers []) status chunks m
        (sym (ap (λ w. w.too_large) behind) ∙ h)
