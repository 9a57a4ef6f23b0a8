-- ===== src/Gateway/Streams.antt =====
-- The watch of store/gateway.js: what is written to the stream when it is opened, and for the events that
-- come later. The store is the node's own.
use nodejs_k8s.Prelude.{ℕ, Text, Bool, true, false, Option, List, [], ◌∷◌, map, if◌then◌else◌}
use nodejs_k8s.Mvcc.Types.{Bytes, Codec, Event, EventKind, Store, ok, err, code}
use nodejs_k8s.Mvcc.Read.{is_empty}
use nodejs_k8s.Mvcc.Watch.{WatchOptions, WatchReply, watch, on, cancel}
use nodejs_k8s.Gateway.Decode.{or_default, b64}
use nodejs_k8s.Gateway.Calls.{Header, KvReply, Site, Answer, encode_kv, encode_kv?, header, fail}

pub record WatchBody : Type 0 where
  pub key : Option Text
  pub range_end : Option Text
  pub start_revision : Option ℕ
  pub prev_kv : Option Bool

pub record EventReply : Type 0 where
  pub is_delete : Bool
  pub kv : KvReply
  pub prev_kv : Option KvReply

-- one line of the stream
pub record Frame : Type 0 where
  pub header : Header
  pub watch_id : ℕ
  pub created : Bool
  pub events : List EventReply

unfoldable pub watch_options : Codec → WatchBody → WatchOptions
unfolding or_default b64
watch_options c body = record {
  range_end = b64 c body.range_end;
  start_revision = or_default 0 body.start_revision;
  prev_kv = or_default false body.prev_kv;
}

module _ (c : Codec) (from_text : Text → Bytes) (site : Site) where
  -- of a deletion the key and the revision are there
  unfoldable pub encode_event : Event → EventReply
  unfolding encode_kv encode_kv?
  encode_event e = elim e.kind [
    | EventKind.put kv ↦ record {
      is_delete = false;
      kv = encode_kv c from_text kv;
      prev_kv = encode_kv? c from_text e.prev_kv;
    }
    | EventKind.delete key rev ↦ record {
      is_delete = true;
      kv = record {
        key = c.to_base64 (from_text key);
        create_revision = 0;
        mod_revision = rev;
        version = 0;
        value = c.to_base64 [];
        lease = 0;
      };
      prev_kv = encode_kv? c from_text e.prev_kv;
    }
  ]

  unfoldable pub frame : ℕ → Bool → List Event → Store → Frame
  unfolding header encode_event
  frame id created events s = record {
    header = header c from_text site s;
    watch_id = id;
    created = created;
    events = map encode_event events;
  }

  -- a stream that is opened: the lines that are written at once, or the refusal
  pub data Opened : Type 0 where
    streams : ℕ → List Frame → Opened
    refused : Answer → Opened

  opening : WatchReply → Store → List Frame
  unfolding frame
  opening w s =
      let first = frame w.id true [] s in
      if is_empty w.backlog then first ∷ [] else first ∷ frame w.id false w.backlog s ∷ []

  -- `listener` is the number of the function that writes the later events
  unfoldable pub open_watch : (listener : ℕ) → WatchBody → Store → Opened × Store
  unfolding watch_options opening fail
  open_watch listener body s =
      let (result, t) = watch (b64 c body.key) (watch_options c body) s in
      elim result [
        | err e ↦ (refused (fail 400 (code e)), t)
        | ok w ↦ (streams w.id (opening w t), on w.id listener t)
      ]

-- when the client goes away
unfoldable pub close_watch : ℕ → Store → Store
close_watch id s = cancel id s
