-- ===== src/ChannelA/Uploads.antt =====
-- `POST /cleanPack/uploadLogs|uploadStats|uploadSingle`: src/channel_a/handlers/uploads.rs.
pub mod Staging
use noobscenic.Prelude.{
  ℕ, pos, Bytes, Bool, List, [], ◌∷◌, Option, none, some, codes, unwrap_or, or_else, ◌>>=◌, text_eq,
  length, if◌then◌else◌, find_first,
}
use noobscenic.Json.{Value, Fields, obj, end, field, str, int}
use noobscenic.ChannelA.Form.{Form}
use noobscenic.ChannelA.Multipart
use noobscenic.ChannelA.Multipart.{Part, Parsed}
use noobscenic.ChannelA.Register.{hex_of}
use noobscenic.ChannelA.Server.{
  Server, Settings, Externals, Request, Answer, done, body_of, form_of,
}
use noobscenic.ChannelA.Handlers.{param, take_chars, insert_upload_raw}
use noobscenic.Db.Slots.{upsert_map_backup}
use noobscenic.Web.Fields.{insert}

-- `fields.insert`, in order.
abbrev pub insert_all : List (Bytes × Value) → Fields → Fields
insert_all [] fields = fields
insert_all ((key, value) ∷ more) fields = insert_all more (insert key value fields)

abbrev pub to_str_values : List (Bytes × Bytes) → List (Bytes × Value)
to_str_values [] = []
to_str_values ((key, value) ∷ more) = (key, str value) ∷ to_str_values more

unfoldable pub find_part : Bytes → List Part → Option Part
find_part name = find_first (λ p. text_eq p.name name)

module _ {F : Type 0} (g : Settings) (x : Externals F) where
  abbrev pub text_of : Part → Option Bytes
  text_of = Multipart.text x.texts

  -- The stored value of a part: the size of a file, or the beginning of a text.
  unfoldable pub part_value : Part → Value
  part_value p = elim p.filename [
    | some filename ↦ obj (
        field (codes "bytes") (int (pos (length p.content)))
          (field (codes "filename") (str filename) end))
    | none ↦ str (take_chars 4096 (unwrap_or (codes "(not UTF-8)") (text_of p)))
  ]

  unfoldable pub part_fields : List Part → Fields → Fields
  unfolding part_value
  part_fields [] fields = fields
  part_fields (p ∷ ps) fields = part_fields ps (insert p.name (part_value p) fields)

  abbrev pub md5_of : Part → Bytes
  md5_of p = hex_of (x.digest p.content)

  -- The digest that the robot declared is that of the part.
  unfoldable pub is_intact : List Part → Part → Bool
  is_intact parts backup =
      elim (find_part (codes "backupMapMd5") parts >>= text_of) as (λ o. Bool) [
        | none ↦ Bool.false
        | some declared ↦ text_eq declared (md5_of backup)
      ]

  abbrev pub serial_of : List Part → Option Bytes
  serial_of parts = find_part (codes "sn") parts >>= text_of

  unfoldable pub stage : List Part → Part → Request → Server F → Server F
  stage parts backup r s =
      let record_name =
        or_else (find_part (codes "cleanFile") parts >>= λ p. p.filename) backup.filename in
      record s {
        backups =
            upsert_map_backup (unwrap_or (codes "-") (serial_of parts)) record_name (md5_of backup)
              (hex_of r.token) backup.content r.now s.backups;
      }

  unfoldable pub stage_backup : List Part → Request → Server F → Server F × Answer
  unfolding stage is_intact
  stage_backup parts r s = elim (find_part (codes "backupMap") parts) [
    | none ↦ (s, done)
    | some backup ↦
        if is_intact parts backup then (stage parts backup r s, done) else (s, Answer.upload_failed)
  ]

  unfoldable pub store_multipart : List Part → Request → Server F → Server F × Answer
  unfolding stage_backup part_fields
  store_multipart parts r s =
      stage_backup parts r
        (insert_upload_raw g x (serial_of parts) r.path (part_fields parts end) r s)

  -- The `data` member as it parsed, or its raw text.
  abbrev pub data_field : Form → Fields → Fields
  data_field form fields =
      elim (or_else form.parsed_data (form.data_raw >>= λ raw. some (str raw))) [
        | none ↦ fields
        | some v ↦ insert (codes "data") v fields
      ]

  unfoldable pub store_form : Form → Request → Server F → Server F × Answer
  store_form form r s = (
    insert_upload_raw g x (param (codes "sn") form) r.path
        (data_field form (insert_all (to_str_values form.fields) end)) r s,
    done,
  )

  -- The reader always finishes, so that the last case does not occur.
  unfoldable pub upload_raw : Request → Server F → Server F × Answer
  unfolding store_multipart store_form
  upload_raw r s =
      let content_type = unwrap_or [] (r.content_type >>= x.to_str) in
      elim (Multipart.parse x.texts content_type (body_of r)) [
        | Parsed.parts parts ↦ store_multipart parts r s
        | Parsed.refused ↦ store_form (form_of x r) r s
        | Parsed.panics ↦ (s, Answer.panics)
        | Parsed.unfinished ↦ (s, Answer.panics)
      ]
