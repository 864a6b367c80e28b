-- ===== src/Map.antt =====
-- Map uploads, src/map.rs: the grid of cells behind base64 and LZ4, and the counts of its cells.
pub mod Grid
pub mod Counts
use noobscenic.Prelude.{
  ℕ, zero, suc, ◌+◌, ◌-◌, ◌*◌, ◌%◌, ◌^◌, ℤ, pos, Bytes, Bool, List, [], ◌∷◌, Option, none, some,
  unwrap_or, ltb, ◌==◌, length, take, replicate, set, get_or, if◌then◌else◌, Result, and_then,
  ok_or,
}
use noobscenic.CleanPath.{clamp}
use noobscenic.Json.{Value}

-- The fields of an upload, over the type `F` of floating-point numbers.
pub record MapUpload (F : Type 0) : Type 0 where
  pub sn : Option Bytes
  pub map_id : Option ℤ
  pub auto_area_id : Option ℤ
  pub path_id : Option ℤ
  pub width : Option ℤ
  pub height : Option ℤ
  pub resolution : Option F
  pub x_min : Option F
  pub y_min : Option F
  pub lz4_len : Option ℤ
  pub area : List Value
  pub map : Option Bytes
  pub charge_handle_pos : Option (List ℤ)
  pub charge_handle_phi : Option ℤ
  pub charge_handle_state : Option Bytes

pub data MapError : Type 0 where
  bad_json too_large no_dimensions bad_base64 bad_block : MapError
  wrong_length : ℕ → ℕ → ℕ → ℕ → MapError

-- `serde_json::from_value` with the derived reader of `MapUpload`.
unfoldable pub parse :
    {F : Type 0} → (Value → Option (MapUpload F)) → Value → Result (MapUpload F) MapError
parse from_value json = ok_or MapError.bad_json (from_value json)

-- `usize::checked_mul`
unfoldable pub checked_mul : ℕ → ℕ → Option ℕ
checked_mul a b = if ltb (a * b) (2 ^ 64) then some (a * b) else none

-- The counters are `u32`.
unfoldable pub histogram : Bytes → List ℕ → List ℕ
histogram [] h = h
histogram (cell ∷ cells) h = histogram cells (set h cell ((get_or h cell 0 + 1) % 2 ^ 32))

pub record DecodedMap : Type 0 where
  pub cells : Bytes
  pub histogram : List ℕ

-- The numbers that the text of `summary` shows.
pub record Summary : Type 0 where
  pub cells : ℕ
  pub wall : ℕ
  pub unknown : ℕ
  pub free : ℕ
  pub labels : ℕ

-- `a - b` on `u32`, which wraps around.
abbrev pub sub_u32 : ℕ → ℕ → ℕ
sub_u32 a b = (a + (2 ^ 32 - b)) % 2 ^ 32

unfoldable pub summary : DecodedMap → Summary
summary d =
    let wall = get_or d.histogram 0x00 0 in
    let unknown = get_or d.histogram 0x7f 0 in
    let free = get_or d.histogram 0xff 0 in
    record {
      cells = length d.cells;
      wall = wall;
      unknown = unknown;
      free = free;
      labels = sub_u32 (sub_u32 (sub_u32 (length d.cells % 2 ^ 32) wall) unknown) free;
    }

-- The decoder of base64, and the LZ4 decoder, which writes into a buffer and says how much it
-- wrote.
pub record Decoders : Type 0 where
  pub decode64 : Bytes → Option Bytes
  pub decompress_into : Bytes → Bytes → Option (Bytes × ℕ)

module _ (d : Decoders) where
  open d use {decode64, decompress_into}

  unfoldable pub decompress_block : Bytes → ℕ → Result Bytes MapError
  decompress_block src expected = elim (decompress_into src (replicate expected 0)) [
    | none ↦ Result.err MapError.bad_block
    | some r ↦ Result.ok (take r.1 r.0)
  ]

  -- `width.checked_mul(height)` and the two refusals that follow it.
  unfoldable pub expected_cells : ℕ → ℕ → Result ℕ MapError
  unfolding checked_mul
  expected_cells width height =
      and_then (ok_or MapError.too_large (checked_mul width height))
        λ expected. if expected == 0 then Result.err MapError.no_dimensions else Result.ok expected

  unfoldable pub decompress_stored : Bytes → ℕ → ℕ → Result Bytes MapError
  unfolding decompress_block expected_cells
  decompress_stored compressed width height = and_then (expected_cells width height) λ expected.
      and_then (decompress_block compressed expected) λ cells.
        if length cells == expected
        then Result.ok cells
        else Result.err (MapError.wrong_length (length cells) expected width height)

  unfoldable pub decode : {F : Type 0} → MapUpload F → Result DecodedMap MapError
  unfolding decompress_stored histogram
  decode upload =
      let width = clamp (unwrap_or (pos 0) upload.width) in
      let height = clamp (unwrap_or (pos 0) upload.height) in
      and_then (expected_cells width height) λ _.
        and_then (ok_or MapError.bad_base64 (decode64 (unwrap_or [] upload.map))) λ compressed.
          and_then (decompress_stored compressed width height) λ cells.
            Result.ok (record { cells = cells; histogram = histogram cells (replicate 256 0) })
