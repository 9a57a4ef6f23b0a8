-- ===== src/Gateway/Reading.antt =====
-- What a client writes through store/gateway.js, it reads, unless it reads what a follower has at hand.
use nodejs_k8s.Prelude.{Text, false, none, some, [], ◌∷◌, ◌≡◌, text_eq}
use nodejs_k8s.Prelude.Map
use nodejs_k8s.Mvcc.Types.{Bytes, Codec, IsCodec, Store}
use nodejs_k8s.Mvcc.Compare.{encoded}
use nodejs_k8s.Mvcc.Batch.{Op, apply_writes}
use nodejs_k8s.Mvcc.Swap.{no_options}
use nodejs_k8s.Gateway.Decode.{RangeBody}
use nodejs_k8s.Gateway.Calls.{PutCall}

-- UTF-8 is read back as the text that it was made of, and no text is no bytes
pub record IsText (c : Codec) (from_text : Text → Bytes) : Type 0 where
  pub base64 : IsCodec c
  pub to-from_text : (t : Text) → c.to_text (from_text t) ≡ t
  pub empty : c.to_text (c.from_base64 []) ≡ []

-- a put and a read that name nothing but the key, and the value
abbrev pub put_body : Text → Text → PutCall
put_body key value = record {
  key = some key;
  value = some value;
  lease = none;
  prev_kv = none;
  ignore_value = none;
  ignore_lease = none;
}

abbrev pub range_body : Text → RangeBody
range_body key = record {
  key = some key;
  range_end = none;
  limit = none;
  revision = none;
  count_only = none;
  keys_only = none;
  sort_order = none;
  sort_target = none;
}

module _ (c : Codec) (from_text : Text → Bytes) (laws : IsText c from_text) where
  -- the store after the put
  after : Text → Bytes → Store → Store
  after key value s =
      (apply_writes c (Op.put key (encoded (c.to_base64 value)) no_options false ∷ []) s).1
