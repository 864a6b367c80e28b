-- ===== src/Wire/Tap.antt =====
-- The tap, `Tap::record` and `Inner::render` of src/wire/mod.rs and the raw sink of
-- src/wire/raw.rs, in a build with both sinks; the settings say which are used.
pub mod Traced
use noobscenic.Prelude.{
  ℕ, ◌+◌, ℤ, pos, Bytes, Bool, true, false, List, [], ◌∷◌, ◌++◌, Option, none, some, codes, ltb,
  ◌&&◌, text_eq, length, take, if◌then◌else◌,
}
use noobscenic.Json.{Value, Fields, obj, end, field, str, int, bool}
use noobscenic.Db.Rows.{upsert}
use noobscenic.Web.Fields.{insert}
use noobscenic.Wire.Mask.{redact_secrets}
use noobscenic.Wire.Jsonl.{Directory, is_named, JsonlSink, write_line}

pub data Direction : Type 0 where
  inbound outbound : Direction

-- `as_str`
abbrev pub direction_str : Direction → Bytes
direction_str inbound = codes "in"
direction_str outbound = codes "out"

-- `meta` holds its keys in order.
pub record Record : Type 0 where
  pub channel : Bytes
  pub direction : Direction
  pub kind : Bytes
  pub conn_id : Option Bytes
  pub peer : Option Bytes
  pub sn : Option Bytes
  pub meta : List (Bytes × Value)
  pub body : Bytes

pub record Recorded : Type 0 where
  pub seq : ℕ
  pub reference : Bytes

pub record Inner : Type 0 where
  pub seq : ℕ
  pub enabled : Bool
  pub write_jsonl : Bool
  pub max_body_bytes : ℕ
  pub redact : Bool
  pub jsonl : JsonlSink
  pub write_raw : Bool

-- The tap, which is switched off where it has no `Inner`, and the files of the two sinks.
pub record Tap : Type 0 where
  pub inner : Option Inner
  pub traces : Directory
  pub raw : Directory

-- What the tap calls: the printing of numbers, the opening of files, serde_json's writer, the test
-- for UTF-8, base64, `trim_start`, and the clock, as a date and as a timestamp.
pub record Outside : Type 0 where
  pub show : ℕ → Bytes
  pub can_open : Bytes → Bool
  pub to_text : Value → Bytes
  pub is_utf8 : Bytes → Bool
  pub encode64 : Bytes → Bytes
  pub trim_start : Bytes → Bytes
  pub today : Bytes
  pub ts : Bytes

unfoldable pub is_enabled : Tap → Bool
is_enabled t = elim t.inner [ none ↦ false | some i ↦ i.enabled ]

unfoldable pub set_enabled : Bool → Tap → Tap
set_enabled on t = elim t.inner [
  | none ↦ t
  | some i ↦ record t { inner = some (record i { enabled = on }) }
]

abbrev pub short_kind : Bytes → Bytes
short_kind kind =
    if text_eq kind (codes "request")
    then codes "req"
    else if text_eq kind (codes "response")
    then codes "resp"
    else kind

-- The optional fields, where they are there.
abbrev pub insert_text : Bytes → Option Bytes → Fields → Fields
insert_text key none fields = fields
insert_text key (some v) fields = insert key (str v) fields

abbrev pub insert_meta : List (Bytes × Value) → Fields → Fields
insert_meta [] fields = fields
insert_meta ((k, v) ∷ more) fields = insert_meta more (insert k v fields)

module _ (o : Outside) where
  open o use {show, can_open, to_text, is_utf8, encode64, trim_start, today, ts}

  abbrev pub raw_name : ℕ → Bytes → Bytes
  raw_name seq kind =
      today ++ (codes "/" ++ (show seq ++ (codes "." ++ (short_kind kind ++ codes ".bin"))))

  -- `File::create`: a file of that name is replaced.
  unfoldable pub write_raw_file : ℕ → Bytes → Bytes → Directory → Directory
  write_raw_file seq kind body dir =
      let name = raw_name seq kind in
      if can_open name then upsert (is_named name) (λ f. (f.0, body)) (name, body) dir else dir

  abbrev pub truncated : Inner → Record → Bool
  truncated i r = ltb 0 i.max_body_bytes && ltb i.max_body_bytes (length r.body)

  -- The body is cut before it is tested and masked.
  unfoldable pub insert_body : Inner → Record → Fields → Fields
  insert_body i r fields =
      let body = if truncated i r then take i.max_body_bytes r.body else r.body in
      if is_utf8 body
      then insert (codes "body") (str (if i.redact then redact_secrets trim_start body else body))
          fields
      else insert (codes "body_b64") (str (encode64 body)) fields

  unfoldable pub render : Inner → ℕ → Record → Bytes
  unfolding insert_body
  render i seq r =
      let named = insert (codes "kind") (str r.kind) (
        insert (codes "direction") (str (direction_str r.direction)) (
          insert (codes "channel") (str r.channel)
            (insert (codes "ts") (str ts) (insert (codes "seq") (int (pos seq)) end)))) in
      let labelled =
        insert_text (codes "sn") r.sn
          (insert_text (codes "peer") r.peer (insert_text (codes "conn_id") r.conn_id named)) in
      let sized = insert (codes "len") (int (pos (length r.body))) (insert_meta r.meta labelled) in
      let marked = if truncated i r then insert (codes "truncated") (bool true) sized else sized in
      to_text (obj (insert_body i r marked))

  abbrev pub hash : ℕ → Bytes
  hash seq = codes "#" ++ show seq

  -- The line is written, and names its file if that succeeded.
  unfoldable pub trace : Inner → ℕ → Record → Directory → (JsonlSink × Directory) × Bytes
  unfolding render
  trace i seq r dir =
      if i.write_jsonl
      then (let w = write_line show can_open today (render i seq r) (i.jsonl, dir) in
          (w.0, if w.1 then w.0.0.name ++ hash seq else hash seq))
      else ((i.jsonl, dir), hash seq)

  unfoldable pub record_with : Inner → Record → Tap → Tap × Option Recorded
  unfolding trace write_raw_file
  record_with i r t =
      let seq = i.seq + 1 in
      let w = trace i seq r t.traces in
      (
        record {
          inner = some (record i { seq = seq; jsonl = w.0.0 });
          traces = w.0.1;
          raw = if i.write_raw then write_raw_file seq r.kind r.body t.raw else t.raw;
        },
        some (record { seq = seq; reference = w.1 }),
      )

  unfoldable pub record_by : Option Inner → Record → Tap → Tap × Option Recorded
  unfolding record_with
  record_by none r t = (t, none)
  record_by (some i) r t = if i.enabled then record_with i r t else (t, none)

  -- `Tap::record`
  unfoldable pub tap_record : Record → Tap → Tap × Option Recorded
  unfolding record_by
  tap_record r t = record_by t.inner r t
