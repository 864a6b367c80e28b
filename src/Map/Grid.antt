-- ===== src/Map/Grid.antt =====
-- What the decoder of src/map.rs accepts.
use noobscenic.Prelude.{
  ℕ, ◌*◌, ◌^◌, ◌<◌, pos, Bytes, [], some, unwrap_or, length, take_all, replicate, Result, ◌≡◌, ap,
  arith,
}
use noobscenic.CleanPath.{clamp}
use noobscenic.Map.{
  MapUpload, Decoders, DecodedMap, checked_mul, expected_cells, decompress_block, decompress_stored,
  decode, histogram,
}

decompress_stored-ok :
    (d : Decoders) (c : Bytes) (w h : ℕ) (cells : Bytes)
    → decompress_stored d c w h ≡ Result.ok cells
    → (length cells ≡ w * h) × (0 < w * h) × (w * h < 2 ^ 64)
unfolding decompress_stored expected_cells checked_mul decompress_block
decompress_stored-ok d c w h cells q = ground arith

-- What a decoded upload is: as many cells as the product of its dimensions, which is neither zero
-- nor beyond the machine's word, and their counts.
pub decode_lem :
    {F : Type 0} (d : Decoders) (u : MapUpload F) (m : DecodedMap)
    → decode d u ≡ Result.ok m
    → let width = clamp (unwrap_or (pos 0) u.width) in
      let height = clamp (unwrap_or (pos 0) u.height) in
      (length m.cells ≡ width * height)
      × (0 < width * height)
      × (width * height < 2 ^ 64)
      × (m.histogram ≡ histogram m.cells (replicate 256 0))
unfolding decode
decode_lem d u m h = ground (arith, decompress_stored-ok d)

-- An upload whose dimensions are those of a grid and whose text is base64 of a block that LZ4
-- unpacks to that grid, filling the buffer, decodes to the grid.
pub decode-grid :
    {F : Type 0} (d : Decoders) (u : MapUpload F) (w h : ℕ) (block grid : Bytes)
    → u.width ≡ some (pos w)
    → u.height ≡ some (pos h)
    → length grid ≡ w * h
    → 0 < w * h
    → w * h < 2 ^ 64
    → d.decode64 (unwrap_or [] u.map) ≡ some block
    → d.decompress_into block (replicate (w * h) 0) ≡ some (grid, w * h)
    → decode d u ≡ Result.ok (record { cells = grid; histogram = histogram grid (replicate 256 0) })
unfolding decode decompress_stored expected_cells checked_mul decompress_block
decode-grid d u w h block grid ew eh len positive small eb eg =
    let fits : expected_cells d w h ≡ Result.ok (w * h) =
      unfold expected_cells checked_mul in ground arith in
    let whole = take_all (w * h) grid len in
    let unpacked : decompress_block d block (w * h) ≡ Result.ok grid =
      unfold decompress_block in rw (decompress_block, eg) (ap Result.ok whole) in
    rw (ew, eh, fits, eb, unpacked) (ground arith)
