-- ===== src/Wire/Jsonl/Appends.antt =====
-- What a line does to the files, of src/wire/jsonl.rs.
use noobscenic.Prelude.{
  ℕ, Bytes, Bool, true, false, [], ◌++◌, Option, none, some, codes, text_eq, text_iff, text_refl,
  find_first, ◌>>=◌, ◌&&◌, length, unwrap_or, if◌then◌else◌, Bool-cases, inl, inr, ◌≡◌, refl, ap,
  sym, ◌∙◌, subst, arith, append-nil, suc, length-append,
}
use noobscenic.Db.Rows.Laws.{find-upsert, find-upsert_other, upserted}
use noobscenic.Wire.Jsonl.{
  Directory, is_named, content, append, JsonlSink, file_name, open_file, ensure_open,
  needs_rotation, rotate, put_line, write_line,
}

-- The bytes of a file, none where it is missing.
abbrev pub bytes_of : Bytes → Directory → Bytes
bytes_of name dir = unwrap_or [] (content name dir)

other_name : (a b c : Bytes) → text_eq b c ≡ false → text_eq a b ≡ true → text_eq a c ≡ false
other_name a b c e k = rw ((text_iff a b).0 k) e

bytes-append_self :
    (name bytes : Bytes) (dir : Directory)
    → bytes_of name (append name bytes dir) ≡ bytes_of name dir ++ bytes
unfolding append content
bytes-append_self name bytes dir =
    let found =
      find-upsert (is_named name) (λ f. (f.0, f.1 ++ bytes)) (name, bytes) (λ f. refl)
        (text_refl name) dir in
    ap (λ o. unwrap_or [] (o >>= λ f. some f.1)) found ∙ grown (find_first (is_named name) dir)
  where
    grown :
        (o : Option (Bytes × Bytes))
        → (upserted (λ f. (f.0, f.1 ++ bytes)) (name, bytes) o).1
          ≡ unwrap_or [] (o >>= λ f. some f.1) ++ bytes
    grown none = unfold upserted in refl
    grown (some f) = unfold upserted in refl

bytes-append_other :
    (name k bytes : Bytes) (dir : Directory)
    → text_eq name k ≡ false
    → bytes_of k (append name bytes dir) ≡ bytes_of k dir
unfolding append content
bytes-append_other name k bytes dir e =
    ap (λ o. unwrap_or [] (o >>= λ f. some f.1))
      (find-upsert_other (is_named name) (λ f. (f.0, f.1 ++ bytes)) (is_named k)
        (λ f h. other_name f.0 name k e h) (λ f h. other_name f.0 name k e h) (name, bytes) e dir)

-- Only what is appended to a file changes its bytes.
pub bytes-append :
    (name k bytes : Bytes) (dir : Directory)
    → bytes_of k (append name bytes dir)
      ≡ (if text_eq name k then bytes_of k dir ++ bytes else bytes_of k dir)
bytes-append name k bytes dir = elim (Bool-cases (text_eq name k)) [
  | inl e ↦
      rw (e, if◌then◌else◌)
        (subst (λ s. bytes_of s (append name bytes dir) ≡ bytes_of s dir ++ bytes)
          ((text_iff name k).0 e) (bytes-append_self name bytes dir))
  | inr e ↦ rw (e, if◌then◌else◌) (bytes-append_other name k bytes dir e)
]

bytes-append_nothing :
    (name k : Bytes) (dir : Directory) → bytes_of k (append name [] dir) ≡ bytes_of k dir
bytes-append_nothing name k dir = bytes-append name k [] dir ∙ same (text_eq name k)
  where
    same : (b : Bool) → (if b then bytes_of k dir ++ [] else bytes_of k dir) ≡ bytes_of k dir
    same true = append-nil _
    same false = refl

-- The sink counts the bytes of the file that it has open.
abbrev pub Counts : JsonlSink × Directory → Type 0
Counts w = w.0.file ≡ true → w.0.written ≡ length (bytes_of w.0.name w.1)

-- What a step in front of the write leaves: the files have the same bytes, the count is right, and
-- a step that is not refused leaves a file open.
record Stays (dir : Directory) (r : (JsonlSink × Directory) × Bool) : Type 0 where
  pub is_open : r.1 ≡ true → r.0.0.file ≡ true
  pub counted : Counts r.0
  pub kept : (k : Bytes) → bytes_of k r.0.1 ≡ bytes_of k dir

-- What a call leaves: a line that was written stands at the end of the file that the sink names,
-- and no other file has changed; a call that is refused changes no file.
pub record Writes (line : Bytes) (dir : Directory) (r : (JsonlSink × Directory) × Bool)
    : Type 0 where
  pub counts : Counts r.0
  pub wrote :
      r.1 ≡ true
      → (k : Bytes)
      → bytes_of k r.0.1
        ≡ (if text_eq r.0.0.name k then bytes_of k dir ++ (line ++ codes "\n") else bytes_of k dir)
  pub refused : r.1 ≡ false → (k : Bytes) → bytes_of k r.0.1 ≡ bytes_of k dir

put_line-Writes :
    (line : Bytes) (s : JsonlSink) (dir old : Directory)
    → s.file ≡ true
    → Counts (s, dir)
    → ((k : Bytes) → bytes_of k dir ≡ bytes_of k old)
    → Writes line old (put_line line (s, dir), true)
unfolding put_line
put_line-Writes line s dir old o c same =
    rw (o, if◌then◌else◌)
      (record {
        counts = λ q.
            let grown = ap length (bytes-append_self s.name (line ++ codes "\n") dir) in
            omega (
              arith,
              c o,
              grown,
              length-append {0} (bytes_of s.name dir) (line ++ codes "\n"),
              length-append {0} line (codes "\n"),
            );
        wrote = λ q k.
            bytes-append s.name k (line ++ codes "\n") dir
            ∙ ap (λ (b : Bytes). if text_eq s.name k then b ++ (line ++ codes "\n") else b)
                (same k);
        refused = λ q. absurd (cc);
      })

module _ (show : ℕ → Bytes) (can_open : Bytes → Bool) where
  open_file-Stays :
      (today : Bytes) (index : ℕ) (s : JsonlSink) (dir : Directory)
      → Counts (s, dir)
      → Stays dir (open_file show can_open today index (s, dir))
  unfolding open_file
  open_file-Stays today index s dir c =
      elim (Bool-cases (can_open (file_name show can_open today index))) [
        | inl k ↦
            rw (k, if◌then◌else◌)
              (record {
                is_open = λ q. refl;
                counted = λ q. ap length (sym (bytes-append_nothing _ _ dir));
                kept = λ n. bytes-append_nothing _ n dir;
              })
        | inr k ↦
            rw (k, if◌then◌else◌)
              (record { is_open = λ q. absurd (cc); counted = c; kept = λ n. refl })
      ]

  ensure_open-Stays :
      (today : Bytes) (s : JsonlSink) (dir : Directory)
      → Counts (s, dir)
      → Stays dir (ensure_open show can_open today (s, dir))
  unfolding ensure_open
  ensure_open-Stays today s dir c = elim (Bool-cases (s.file && text_eq s.date today)) [
    | inl k ↦
        rw (k, if◌then◌else◌)
          (record { is_open = λ q. ground arith; counted = c; kept = λ n. refl })
    | inr k ↦ rw (k, if◌then◌else◌) (open_file-Stays today _ s dir c)
  ]

  rotate-Stays :
      (today line : Bytes) (s : JsonlSink) (dir : Directory)
      → s.file ≡ true
      → Counts (s, dir)
      → Stays dir (rotate show can_open today line (s, dir))
  unfolding rotate
  rotate-Stays today line s dir o c = elim (Bool-cases (needs_rotation line s)) [
    | inl k ↦
        rw (k, if◌then◌else◌)
          (open_file-Stays today (suc s.index) (record s { index = suc s.index }) dir c)
    | inr k ↦ rw (k, if◌then◌else◌) (record { is_open = λ q. o; counted = c; kept = λ n. refl })
  ]

  -- From a sink that counts the bytes of its file, as a new one does, a call leaves such a sink. If
  -- it succeeds, the line stands whole at the end of the file that a trace reference names, and no
  -- other file has changed; if an open is refused, no file has changed.
  pub write_line-Writes :
      (today line : Bytes) (s : JsonlSink) (dir : Directory)
      → Counts (s, dir)
      → Writes line dir (write_line show can_open today line (s, dir))
  unfolding write_line
  write_line-Writes today line s dir c =
      let opened = ensure_open show can_open today (s, dir) in
      let first = ensure_open-Stays today s dir c in
      elim (Bool-cases opened.1) [
        | inr k ↦
            rw (k, if◌then◌else◌)
              (record {
                counts = first.counted;
                wrote = λ q. absurd (cc);
                refused = λ q. first.kept;
              })
        | inl k ↦
            let rotated = rotate show can_open today line opened.0 in
            let second =
              rotate-Stays today line opened.0.0 opened.0.1 (first.is_open k) first.counted in
            rw (k, if◌then◌else◌)
              (elim (Bool-cases rotated.1) [
                | inl r ↦
                    rw (r, if◌then◌else◌)
                      (put_line-Writes line rotated.0.0 rotated.0.1 dir (second.is_open r)
                        second.counted (λ n. second.kept n ∙ first.kept n))
                | inr r ↦
                    rw (r, if◌then◌else◌)
                      (record {
                        counts = second.counted;
                        wrote = λ q. absurd (cc);
                        refused = λ q n. second.kept n ∙ first.kept n;
                      })
              ])
      ]
