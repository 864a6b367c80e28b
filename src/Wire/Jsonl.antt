-- ===== src/Wire/Jsonl.antt =====
-- The rotating sink of src/wire/jsonl.rs, over a directory of files.
pub mod Appends
use noobscenic.Prelude.{
  ℕ, zero, suc, ◌+◌, ◌-◌, ◌*◌, ◌^◌, Bytes, Bool, true, false, List, [], ◌∷◌, ◌++◌, Option, none,
  some, codes, ltb, leb, ◌==◌, ◌&&◌, not, text_eq, find_first, ◌>>=◌, length, min, if◌then◌else◌,
  unwrap_or,
}
use noobscenic.Db.Rows.{upsert}

-- The files by their names, each with its bytes.
abbrev pub Directory : Type 0
Directory = List (Bytes × Bytes)

abbrev pub is_named : Bytes → Bytes × Bytes → Bool
is_named name f = text_eq f.0 name

unfoldable pub content : Bytes → Directory → Option Bytes
content name dir = find_first (is_named name) dir >>= λ f. some f.1

-- A write at the end of a file, which is made where there is none.
unfoldable pub append : Bytes → Bytes → Directory → Directory
append name bytes = upsert (is_named name) (λ f. (f.0, f.1 ++ bytes)) (name, bytes)

-- `file` says whether a file is open: it is the one called `name`.
pub record JsonlSink : Type 0 where
  pub rotate_bytes : ℕ
  pub date : Bytes
  pub index : ℕ
  pub file : Bool
  pub name : Bytes
  pub written : ℕ

-- `rotate_mb.saturating_mul(1024 * 1024)` on 64 bits.
abbrev pub new : ℕ → JsonlSink
new rotate_mb = record {
  rotate_bytes = min (rotate_mb * (1024 * 1024)) (2 ^ 64 - 1);
  date = [];
  index = 0;
  file = false;
  name = [];
  written = 0;
}

-- Whether the line goes to the next file.
unfoldable pub needs_rotation : Bytes → JsonlSink → Bool
needs_rotation line s =
    ltb 0 s.rotate_bytes && ltb 0 s.written && ltb s.rotate_bytes (s.written + (length line + 1))

unfoldable pub put_line : Bytes → JsonlSink × Directory → JsonlSink × Directory
unfolding append
put_line line (s, dir) =
    if s.file
    then (
      record s { written = s.written + (length line + 1) },
      append s.name (line ++ codes "\n") dir,
    )
    else (s, dir)

-- `show` prints a number, and `can_open` says whether the system opens a file for appending.
module _ (show : ℕ → Bytes) (can_open : Bytes → Bool) where
  unfoldable pub file_name : Bytes → ℕ → Bytes
  file_name date index =
      if index == 0
      then codes "wire-" ++ (date ++ codes ".jsonl")
      else codes "wire-" ++ (date ++ (codes "." ++ (show index ++ codes ".jsonl")))

  -- The state and whether it was opened; the file is there from then on.
  unfoldable pub open_file : Bytes → ℕ → JsonlSink × Directory → (JsonlSink × Directory) × Bool
  unfolding file_name content append
  open_file today index (s, dir) =
      let name = file_name today index in
      if can_open name
      then (
        (
          record s {
            written = length (unwrap_or [] (content name dir));
            file = true;
            name = name;
            date = today;
            index = index;
          },
          append name [] dir,
        ),
        true,
      )
      else ((s, dir), false)

  unfoldable pub is_full : ℕ → Bytes → ℕ → Directory → Bool
  unfolding file_name content
  is_full rotate_bytes today index dir = elim (content (file_name today index) dir) [
    | none ↦ false
    | some bytes ↦ leb rotate_bytes (length bytes)
  ]

  -- The loop past the full files. Each one is another file of the directory.
  unfoldable pub first_free : ℕ → ℕ → Bytes → ℕ → Directory → ℕ
  unfolding is_full
  first_free zero rotate_bytes today index dir = index
  first_free (suc fuel) rotate_bytes today index dir =
      let further = first_free fuel rotate_bytes today (suc index) dir in
      if is_full rotate_bytes today index dir then further else index

  unfoldable pub ensure_open : Bytes → JsonlSink × Directory → (JsonlSink × Directory) × Bool
  unfolding open_file first_free
  ensure_open today (s, dir) =
      if s.file && text_eq s.date today
      then ((s, dir), true)
      else open_file today
          (if s.rotate_bytes == 0
            then 0
            else first_free (suc (length dir)) s.rotate_bytes today 0 dir)
          (s, dir)

  -- The index counts on whether or not the next file opens.
  unfoldable pub rotate : Bytes → Bytes → JsonlSink × Directory → (JsonlSink × Directory) × Bool
  unfolding open_file needs_rotation
  rotate today line (s, dir) =
      if needs_rotation line s
      then open_file today (suc s.index) (record s { index = suc s.index }, dir)
      else ((s, dir), true)

  -- A refused open ends the call with an error, and the line is not written.
  unfoldable pub write_line : Bytes → Bytes → JsonlSink × Directory → (JsonlSink × Directory) × Bool
  unfolding ensure_open rotate put_line
  write_line today line w =
      let opened = ensure_open today w in
      if opened.1
      then (let rotated = rotate today line opened.0 in
          if rotated.1 then (put_line line rotated.0, true) else rotated)
      else opened
