-- ===== src/ChannelB/Writer.antt =====
-- The writing half of a connection: `encode_json` and `encode_json_styled` of src/channel_b/codec.rs
-- and `write_task` of src/channel_b/conn.rs. `to_text` is serde_json's writer, and `to_struct` the
-- same on the members of a struct, in the order of their declaration.
pub mod Sent
use noobscenic.Prelude.{
  ℕ, ℤ, Bytes, Bool, true, false, List, [], ◌∷◌, ◌++◌, Option, none, some, codes, ◌>>=◌, or_else,
  any, keep, not, text_eq, if◌then◌else◌, map,
}
use noobscenic.Json
use noobscenic.Json.{
  Value, Items, Fields, find, null, bool, int, real, str, arr, obj, nil, cons, end, field,
}
use noobscenic.ChannelB.Codec.{encode}
use noobscenic.ChannelB.Registry.{Outbound}
use noobscenic.Db.Commands.{Table, set_command_trace}
use noobscenic.Wire.Tap.{Record, Recorded, outbound, Tap, Outside, tap_record}

abbrev pub known : List Bytes
known = codes "infoType" ∷ codes "encrypt" ∷ codes "message" ∷ codes "data" ∷ []

abbrev pub is_known : Bytes → Bool
is_known key = any (text_eq key) known

pub record Ordered : Type 0 where
  pub info_type : ℤ
  pub encrypt : Option ℤ
  pub message : Option Bytes
  pub content : Value
  pub extra : List (Bytes × Value)

-- The members that no field of `Ordered` takes.
unfoldable pub extra_of : Fields → List (Bytes × Value)
extra_of end = []
extra_of (field k v fs) = let rest = extra_of fs in if is_known k then rest else (k, v) ∷ rest

unfoldable pub ordered : Value → Option Ordered
unfolding extra_of
ordered value = Json.as_object value >>= λ fs.
    find (codes "infoType") fs >>= Json.as_i64 >>= λ info_type.
    find (codes "data") fs >>= λ content. some (record {
      info_type = info_type;
      encrypt = find (codes "encrypt") fs >>= Json.as_i64;
      message = find (codes "message") fs >>= Json.as_str;
      content = content;
      extra = extra_of fs;
    })

-- `skip_serializing_if = "Option::is_none"`
abbrev pub optional : {A : Type 0} → Bytes → (A → Value) → Option A → List (Bytes × Value)
optional key f none = []
optional key f (some a) = (key, f a) ∷ []

-- The members as the derived serialiser writes them.
unfoldable pub members : Ordered → List (Bytes × Value)
members o =
    (codes "infoType", int o.info_type)
    ∷ (optional (codes "encrypt") int o.encrypt
        ++ (optional (codes "message") str o.message ++ ((codes "data", o.content) ∷ o.extra)))

module _ (to_text : Value → Bytes) (to_struct : List (Bytes × Value) → Bytes) where
  unfoldable pub json_body : Value → Bytes
  unfolding ordered members
  json_body value = elim (ordered value) [ none ↦ to_text value | some o ↦ to_struct (members o) ]

  unfoldable pub encode_json : Value → Bytes
  unfolding json_body
  encode_json value = encode (json_body value)

-- The parts with `, ` between them.
unfoldable pub separated : List Bytes → Bytes
separated [] = []
separated (b ∷ []) = b
separated (b ∷ c ∷ bs) = b ++ (codes ", " ++ separated (c ∷ bs))

abbrev pub with_key : Bytes → List (Bytes × Bytes) → List (Bytes × Bytes)
with_key key = keep (λ m. text_eq m.0 key)

-- `ordered_keys`: the members that the firmware writes first, in its order, and then the others.
unfoldable pub in_order : List (Bytes × Bytes) → List (Bytes × Bytes)
in_order ms =
    with_key (codes "infoType") ms
    ++ (with_key (codes "encrypt") ms
        ++ (with_key (codes "message") ms
            ++ (with_key (codes "data") ms ++ keep (λ m. not (is_known m.0)) ms)))

module _ (to_text : Value → Bytes) where
  abbrev pub member_text : Bytes × Bytes → Bytes
  member_text (key, text) = to_text (str key) ++ (codes " : " ++ text)

  abbrev pub object_text : List (Bytes × Bytes) → Bytes
  object_text ms = codes "{" ++ (separated (map member_text (in_order ms)) ++ codes "}")

  -- `write_styled`, with the text of each member or item.
  unfoldable mutual
    pub write_styled : Value → Bytes
    write_styled null = to_text null
    write_styled (bool b) = to_text (bool b)
    write_styled (int z) = to_text (int z)
    write_styled (real r) = to_text (real r)
    write_styled (str s) = to_text (str s)
    write_styled (arr vs) = codes "[" ++ (separated (styled_items vs) ++ codes "]")
    write_styled (obj fs) = object_text (styled_fields fs)

    pub styled_items : Items → List Bytes
    styled_items nil = []
    styled_items (cons v vs) = write_styled v ∷ styled_items vs

    pub styled_fields : Fields → List (Bytes × Bytes)
    styled_fields end = []
    styled_fields (field k v fs) = (k, write_styled v) ∷ styled_fields fs

  unfoldable pub encode_json_styled : Value → Bytes
  unfolding write_styled
  encode_json_styled value = encode (write_styled value)

-- What the task writes to: the socket, the tap and the table of the commands.
pub record Writer : Type 0 where
  pub sent : Bytes
  pub tap : Tap
  pub commands : Table

-- The label of a frame: its own type, or else that of the message inside.
unfoldable pub frame_label : Value → Option ℤ
frame_label value =
    or_else (Json.get (codes "infoType") value >>= Json.as_i64)
      (Json.get (codes "data") value >>= Json.get (codes "infoType") >>= Json.as_i64)

abbrev pub label_meta : Option ℤ → List (Bytes × Value)
label_meta none = []
label_meta (some info_type) = (codes "info_type", int info_type) ∷ []

-- The trace of a command's frame is kept with its row.
unfoldable pub keep_reference : Option ℕ → Option Recorded → Table → Table
keep_reference (some id) (some recorded) t = set_command_trace id recorded.reference t
keep_reference (some id) none t = t
keep_reference none recorded t = t

abbrev pub write_all : Bytes → Writer → Writer
write_all bytes w = record w { sent = w.sent ++ bytes }

-- `style` is the console's switch.
module _ (o : Outside) (to_struct : List (Bytes × Value) → Bytes) (style : Bool) where
  unfoldable pub body_of : Value → Bytes
  unfolding json_body write_styled
  body_of value =
      if style then write_styled o.to_text value else json_body o.to_text to_struct value

  module _ (conn_id peer : Bytes) where
    unfoldable pub frame_record : Value → Record
    unfolding frame_label body_of
    frame_record value = record {
      channel = codes "B";
      direction = outbound;
      kind = codes "frame";
      conn_id = some conn_id;
      peer = some peer;
      sn = none;
      meta = label_meta (frame_label value);
      body = encode (body_of value);
    }

    -- One frame is traced before it is written.
    unfoldable pub trace_frame : Outbound → Writer → Writer
    unfolding frame_record keep_reference
    trace_frame out w =
        let r = tap_record o (frame_record out.frame) w.tap in
        record w { tap = r.0; commands = keep_reference out.command_id r.1 w.commands }

    -- The queue of the connection until it is closed, or until the socket refuses a write, as
    -- `takes` says; what a refused write may have sent in part is left out.
    unfoldable pub write_task : (Bytes → Bool) → List Outbound → Writer → Writer × Bool
    unfolding trace_frame body_of
    write_task takes [] w = (w, true)
    write_task takes (out ∷ queue) w =
        let bytes = encode (body_of out.frame) in
        let traced = trace_frame out w in
        let rest = write_task takes queue (write_all bytes traced) in
        if takes bytes then rest else (traced, false)
