-- ===== src/Tests/Wire.antt =====
-- Masked lines, a rotation and a traced request: src/wire at concrete inputs.
use noobscenic.Prelude.{
  ℕ, Bytes, Bool, true, [], ◌∷◌, none, some, codes, ◌≡◌, refl, ◌+◌, starts_with, position,
  find_first, text_eq,
}
use noobscenic.ChannelA.Cookie.{trim_start, is_space}
use noobscenic.ChannelA.Multipart.{find_in}
use noobscenic.Db.Rows.{upsert}
use noobscenic.Wire.Mask.{
  mask_form_value, mask_json_value, starts_field, value_end, quoted_value, strip_byte,
  redact_secrets,
}
use noobscenic.Wire.Jsonl.{
  Directory, JsonlSink, new, content, append, file_name, open_file, is_full, first_free,
  ensure_open, rotate, write_line,
}
use noobscenic.Wire.Jsonl.Appends.{Writes, write_line-Writes}
use noobscenic.Wire.Tap.{Record, inbound, Inner, Tap, Outside, tap_record}
use noobscenic.Wire.Tap.Traced.{IsTraced, tap_record-IsTraced}

masks_a_field :
    mask_form_value (codes "sn=ABC&sig=SECRET&ts=0") (codes "sig") ≡ codes "sn=ABC&sig=***&ts=0"
unfolding mask_form_value starts_field value_end find_in starts_with position
masks_a_field = refl

leaves_another_field : mask_form_value (codes "mysig=SECRET") (codes "sig") ≡ codes "mysig=SECRET"
unfolding mask_form_value starts_field value_end find_in starts_with position
leaves_another_field = refl

masks_a_member :
    mask_json_value trim_start (codes "{\"cookies\": \"SID\"}") (codes "cookies")
    ≡ codes "{\"cookies\": \"***\"}"
unfolding mask_json_value quoted_value strip_byte find_in starts_with position trim_start is_space
masks_a_member = refl

-- A body that was cut inside of the value keeps what is left of it.
cut_value_stays : redact_secrets trim_start (codes "{\"session\":\"KE") ≡ codes "{\"session\":\"KE"
unfolding redact_secrets mask_form_value mask_json_value quoted_value strip_byte starts_field
    value_end find_in starts_with position trim_start is_space
cut_value_stays = refl

abbrev one_byte : ℕ → Bytes
one_byte n = (n + 48) ∷ []

abbrev opens : Bytes → Bool
opens name = true

abbrev small : JsonlSink
small = record (new 0) { rotate_bytes = 4 }

-- A first file that is not full and a second one that is, as a restart finds them: the line that
-- rotates lands in the full file.
abbrev found : Directory
found = (codes "wire-d.jsonl", codes "ab\n") ∷ (codes "wire-d.1.jsonl", codes "long\n") ∷ []

rotates_into_a_full_file :
    (write_line one_byte opens (codes "d") (codes "cd") (small, found)).0.1
    ≡ (codes "wire-d.jsonl", codes "ab\n") ∷ (codes "wire-d.1.jsonl", codes "long\ncd\n") ∷ []
unfolding write_line ensure_open rotate open_file file_name is_full first_free content append upsert
    find_first text_eq
rotates_into_a_full_file = refl

write_line-Writes_example :
    Writes (codes "cd") found (write_line one_byte opens (codes "d") (codes "cd") (small, found))
write_line-Writes_example =
    write_line-Writes one_byte opens (codes "d") (codes "cd") small found (λ e. cc)

abbrev outside : Outside
outside = record {
  show = one_byte;
  can_open = opens;
  to_text = λ v. codes "{}";
  is_utf8 = λ b. true;
  encode64 = λ b. b;
  trim_start = trim_start;
  today = codes "d";
  ts = codes "t";
}

abbrev inner : Inner
inner = record {
  seq = 0;
  enabled = true;
  write_jsonl = true;
  max_body_bytes = 8;
  redact = true;
  jsonl = small;
  write_raw = true;
}

abbrev tap : Tap
tap = record { inner = some inner; traces = []; raw = [] }

abbrev request : Record
request = record {
  channel = codes "A";
  direction = inbound;
  kind = codes "request";
  conn_id = none;
  peer = none;
  sn = none;
  meta = [];
  body = codes "sn=ABC&sig=SECRET";
}

tap_record-IsTraced_example : IsTraced outside inner request tap (tap_record outside request tap)
tap_record-IsTraced_example = tap_record-IsTraced outside inner request tap refl refl (λ e. cc)
