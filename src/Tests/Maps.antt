-- ===== src/Tests/Maps.antt =====
-- A map of two cells: src/map.rs at concrete inputs.
use noobscenic.Prelude.{
  ℕ, ◌*◌, ◌<◌, ◌^◌, pos, Bytes, List, [], ◌∷◌, ◌++◌, Option, none, some, ◌≡◌, refl, codes, arith,
  keep, length, text_eq, replicate, drop, Result,
}
use noobscenic.Json.{Value}
use noobscenic.Map.{MapUpload, Decoders, DecodedMap, decode, histogram}
use noobscenic.Map.Grid.{decode_lem, decode-grid}
use noobscenic.Db.Maps.{latest_map_meta, latest_map, latest_map_path_id}
use noobscenic.Db.Maps.Newest.{received, after, latest-insert_map_upload}

-- Text that is its own base64, in a block that is its own LZ4.
abbrev plain : Decoders
plain = record {
  decode64 = λ text. some text;
  decompress_into = λ src buffer. some (src ++ drop (length src) buffer, length src);
}

abbrev grid : Bytes
grid = 0x00 ∷ 0x05 ∷ []

abbrev upload : MapUpload ℕ
upload = record {
  sn = none;
  map_id = some (pos 1);
  auto_area_id = none;
  path_id = some (pos 7);
  width = some (pos 2);
  height = some (pos 1);
  resolution = none;
  x_min = none;
  y_min = none;
  lz4_len = none;
  area = [];
  map = some grid;
  charge_handle_pos = none;
  charge_handle_phi = none;
  charge_handle_state = none;
}

abbrev decoded : DecodedMap
decoded = record { cells = grid; histogram = histogram grid (replicate 256 0) }

decodes : decode plain upload ≡ Result.ok decoded
decodes =
    decode-grid plain upload 2 1 grid grid refl refl refl (omega arith) (omega arith) refl refl

decode_lem_example :
    (2 ≡ 2 * 1)
    × (0 < 2 * 1)
    × (2 * 1 < 2 ^ 64)
    × (decoded.histogram ≡ histogram grid (replicate 256 0))
decode_lem_example = decode_lem plain upload decoded decodes

abbrev areas : List Value → Option Bytes
areas vs = none

latest-insert_map_upload_example :
    let u = after areas (codes "A") upload grid none (pos 9) [] in
    (keep (λ r. text_eq r.sn (codes "A")) u
      ≡ received areas (codes "A") upload grid none (pos 9) [] ∷ [])
    × (latest_map (codes "A") u ≡ some (received areas (codes "A") upload grid none (pos 9) []))
    × (latest_map_path_id (codes "A") u ≡ some (pos 7))
    × (latest_map_meta (codes "A") u ≡ some (upload.map_id, (upload.width, (upload.height, pos 9))))
latest-insert_map_upload_example =
    latest-insert_map_upload areas (codes "A") upload grid none (pos 9) []
