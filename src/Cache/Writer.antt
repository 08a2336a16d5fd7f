-- ===== src/Cache/Writer.antt =====
-- internal/core/policy/cache.go: the writer that keeps a response for the cache. What a handler does
-- to its writer is a list of calls, and `received` is what a client gets of them by net/http: the
-- first status that is written or implied, with the Content-Type of that moment, and all the bytes.
-- Left out of it are the type that net/http guesses where none is set, informational statuses, and
-- that answers to HEAD and of some statuses have no body.
pub mod Plain
use superapi.Prelude.{
  ℕ, suc, ◌+◌, Str, str, String, ◌≡◌, refl, Bool, true, false, not, ◌&&◌, ◌||◌, Option, none, some,
  List, [], ◌∷◌, ◌++◌, ◌==◌, Dict, lookup, insert, length, any, eqb, leb, ltb, if◌then◌else◌,
}

pub data Call : Type 0 where
  set_header : Str → Str → Call
  write_header : ℕ → Call
  write : Str → Call
  flush : Call
  -- Hijack, with whether the writer below supports it
  hijack : Bool → Call

-- statusCodeRecorder
unfoldable pub recorded_status : ℕ → List Call → ℕ
recorded_status status [] = status
recorded_status status (write_header s ∷ calls) = recorded_status s calls
recorded_status status (set_header k v ∷ calls) = recorded_status status calls
recorded_status status (write p ∷ calls) = recorded_status status calls
recorded_status status (flush ∷ calls) = recorded_status status calls
recorded_status status (hijack ok ∷ calls) = recorded_status status calls

pub record CachingResponseWriter : Type 0 where
  pub header : Dict Str
  pub status_code : ℕ
  pub max_bytes : ℕ
  pub cache_statuses : List ℕ
  pub body : Str
  pub too_large : Bool
  pub streaming : Bool

unfoldable pub new_caching_response_writer : ℕ → List ℕ → CachingResponseWriter
new_caching_response_writer max_bytes cache_statuses = record {
  header = [];
  status_code = 200;
  max_bytes = max_bytes;
  cache_statuses = cache_statuses;
  body = [];
  too_large = false;
  streaming = false;
}

-- One call of the handler.
unfoldable pub capture : Call → CachingResponseWriter → CachingResponseWriter
unfolding insert
capture (set_header k v) w = record w { header = insert k v w.header }
capture (write_header s) w = record w { status_code = s }
capture (write p) w =
    if eqb w.max_bytes 0 || w.too_large
    then w
    else if ltb w.max_bytes (length w.body + length p)
    then record w { too_large = true }
    else record w { body = w.body ++ p }
capture flush w = record w { streaming = true }
capture (hijack true) w = record w { streaming = true }
capture (hijack false) w = w

unfoldable pub capture_all : List Call → CachingResponseWriter → CachingResponseWriter
unfolding capture
capture_all [] w = w
capture_all (c ∷ calls) w = capture_all calls (capture c w)

abbrev pub or_empty : Option Str → Str
or_empty none = []
or_empty (some v) = v

unfoldable pub cacheable : CachingResponseWriter → Bool
unfolding lookup ◌==◌
cacheable w =
    not w.streaming
    && not w.too_large
    && or_empty (lookup (str "Set-Cookie") w.header) == []
    && any (eqb w.status_code) w.cache_statuses

-- What a client has received so far: nothing is sent until the first write.
pub record Received : Type 0 where
  pub status : ℕ
  pub body : Str
  pub content_type : Str

pub record Wire : Type 0 where
  pub header : Dict Str
  pub sent : Bool
  pub received : Received

unfoldable pub content_type_of : Dict Str → Str
unfolding lookup
content_type_of header = or_empty (lookup (str "Content-Type") header)

abbrev send : ℕ → Wire → Wire
send status w = if w.sent then w else record w {
  sent = true;
  received = record { status = status; body = []; content_type = content_type_of w.header };
}

abbrev pub add_body : Str → Received → Received
add_body p r = record r { body = r.body ++ p }

abbrev pub written : Str → Wire → Wire
written p w = record w { received = add_body p w.received }

unfoldable pub deliver : Call → Wire → Wire
unfolding insert content_type_of
deliver (set_header k v) w = record w { header = insert k v w.header }
deliver (write_header s) w = send s w
deliver (write p) w = written p (send 200 w)
deliver flush w = send 200 w
deliver (hijack ok) w = w

unfoldable pub deliver_all : List Call → Wire → Wire
unfolding deliver
deliver_all [] w = w
deliver_all (c ∷ calls) w = deliver_all calls (deliver c w)

abbrev pub unsent : Wire
unsent = record {
  header = [];
  sent = false;
  received = record { status = 0; body = []; content_type = [] };
}

-- A handler that writes nothing has answered 200.
unfoldable pub received : List Call → Received
unfolding deliver_all content_type_of
received calls = (deliver flush (deliver_all calls unsent)).received
