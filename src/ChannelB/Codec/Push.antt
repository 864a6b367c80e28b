-- ===== src/ChannelB/Codec/Push.antt =====
-- What one `push` of src/channel_b/codec.rs returns.
use noobscenic.Prelude.{
  ℕ, zero, suc, ◌+◌, ◌≤◌, ◌<◌, ◌≡◌, refl, sym, subst, Bytes, List, ◌++◌, some, arith, ltb, length,
  length-drop, take, drop, All, Option-cases, inl, inr, Bool-cases,
}
use noobscenic.ChannelB.Codec.{
  oversize, Result, ok, err, Decoder, find_delimiter, Scan, prepend, scan, push, settle,
}
use noobscenic.ChannelB.Codec.Find.{find_split, find_bound}
use noobscenic.ChannelB.Codec.Splits.{Splits}

-- The two outcomes of the loop over `rest`, which begins at `start` in the buffer.
abbrev Scanned : ℕ → ℕ → Bytes → Result Scan → Type 0
Scanned max start rest (ok s) =
    Splits rest s.frames s.rest × All (λ f. length f ≤ max) s.frames × (length s.rest ≤ length rest)
Scanned max start rest (err (oversize len m)) =
    (m ≡ max) × (max < len) × (len ≤ start + length rest)

prepend-Scanned :
    (max start at : ℕ) (rest : Bytes) (r : Result Scan)
    → find_delimiter rest ≡ some at
    → at ≤ max
    → length (drop 3 (drop at rest)) + at + 3 ≡ length rest
    → Scanned max (start + at + 3) (drop 3 (drop at rest)) r
    → Scanned max start rest (prepend (take at rest) r)
prepend-Scanned max start at rest (err (oversize len m)) e fits l h = (h.0, h.1, omega arith)
prepend-Scanned max start at rest (ok s) e fits l h =
    let (split, place) = find_split rest at e in
    ((drop 3 (drop at rest), split, rw place e, h.0), (rw place fits, h.1), omega arith)

scan-Scanned :
    (fuel max start : ℕ) (rest : Bytes)
    → length rest < fuel
    → Scanned max start rest (scan fuel max start rest)
unfolding scan
scan-Scanned zero max start rest h = absurd (omega arith)
scan-Scanned (suc fuel) max start rest h = elim (Option-cases (find_delimiter rest)) [
  | inl e ↦ rw (e, scan, Scanned) ((e, refl), tt, omega arith)
  | inr (at, e) ↦ elim (Bool-cases (ltb max (start + at))) [
    | inl over ↦
        rw (e, over, scan, Scanned) (refl, ground arith, omega (arith, find_bound rest at e))
    | inr fits ↦
        let tail : length (drop 3 (drop at rest)) + at + 3 ≡ length rest = omega (
          arith,
          find_bound rest at e,
          length-drop {0} at rest,
          length-drop {0} 3 (drop at rest),
        ) in
        let ih = scan-Scanned fuel max (start + at + 3) (drop 3 (drop at rest)) (omega arith) in
        subst (Scanned max start rest) (sym (rw (e, fits, scan) refl))
          (prepend-Scanned max start at rest _ e (ground arith) tail ih)
  ]
]

-- What `push` guarantees: on success the buffered bytes and the chunk are the frames, each with
-- its delimiter, and the new buffer, no frame and no buffer being longer than `max`; on failure
-- the reported length is over `max`, and no more than what was buffered.
abbrev pub Pushed : Decoder → Bytes → Decoder × Result (List Bytes) → Type 0
Pushed d chunk (d', ok fs) =
    Splits (d.buf ++ chunk) fs d'.buf
    × All (λ f. length f ≤ d.max) fs
    × (length d'.buf ≤ d.max)
    × (d'.max ≡ d.max)
Pushed d chunk (d', err (oversize len m)) =
    (m ≡ d.max) × (d.max < len) × (len ≤ length (d.buf ++ chunk)) × (d'.max ≡ d.max)

settle-Pushed :
    (d : Decoder) (chunk : Bytes) (r : Result Scan)
    → Scanned d.max 0 (d.buf ++ chunk) r
    → Pushed d chunk (settle d (d.buf ++ chunk) r)
unfolding settle
settle-Pushed d chunk (err (oversize len m)) h = (h.0, h.1, omega arith, refl)
settle-Pushed d chunk (ok s) h = elim (Bool-cases (ltb d.max (length s.rest))) [
  | inl over ↦ rw over (refl, ground arith, h.2, refl)
  | inr fits ↦ rw fits (h.0, h.1, ground arith, refl)
]

-- Every `push` returns what the specification `Pushed` says, on success and on failure.
pub push-Pushed : (d : Decoder) (chunk : Bytes) → Pushed d chunk (push d chunk)
unfolding push
push-Pushed d chunk =
    settle-Pushed d chunk _ (scan-Scanned _ d.max 0 (d.buf ++ chunk) (omega arith))
