-- ===== src/Wire/Tap/Traced.antt =====
-- How a reference leads back to the bytes, of src/wire/mod.rs.
use noobscenic.Prelude.{
  ℕ, ◌+◌, Bytes, Bool, true, false, [], ◌++◌, Option, none, some, codes, text_eq, text_refl,
  find_first, ◌>>=◌, if◌then◌else◌, ◌≡◌, refl, ap, ◌∙◌, sym, subst, ◌&&◌,
}
use noobscenic.Db.Rows.{upsert}
use noobscenic.Db.Rows.Laws.{find-upsert, upserted}
use noobscenic.Wire.Jsonl.{Directory, is_named, content, JsonlSink, write_line}
use noobscenic.Wire.Jsonl.Appends.{bytes_of, Counts, write_line-Writes}
use noobscenic.Wire.Tap.{
  Record, Recorded, Inner, Tap, Outside, raw_name, write_raw_file, render, hash, trace, record_with,
  record_by, tap_record,
}

reference_of :
    {A : Type 0} (b w : Bool) (x y : A) (name h : Bytes)
    → (if◌then◌else◌ {A = A × Bytes} b (x, if w then name ++ h else h) (y, h)).1
      ≡ (if b && w then name else []) ++ h
reference_of true true x y name h = refl
reference_of true false x y name h = refl
reference_of false w x y name h = refl

line_of :
    (b : Bool) (x y : JsonlSink × Directory) (m h : Bytes)
    → b ≡ true
    → (if◌then◌else◌ {A = (JsonlSink × Directory) × Bytes} b (x, m) (y, h)).0.1 ≡ x.1
line_of true x y m h e = refl
line_of false x y m h e = absurd (cc)

sink_of :
    (b : Bool) (x y : JsonlSink × Directory) (m h : Bytes)
    → (if◌then◌else◌ {A = (JsonlSink × Directory) × Bytes} b (x, m) (y, h)).0 ≡ (if b then x else y)
sink_of true x y m h = refl
sink_of false x y m h = refl

either_way :
    (x y : JsonlSink × Directory) (b : Bool) → Counts x → Counts y → Counts (if b then x else y)
either_way x y true h k = h
either_way x y false h k = k

then_is : {A : Type 0} (b : Bool) (x y : A) → b ≡ true → (if b then x else y) ≡ x
then_is true x y e = refl
then_is false x y e = absurd (cc)

both : (b w : Bool) → b ≡ true → w ≡ true → (name : Bytes) → (if b && w then name else []) ≡ name
both true true e f name = refl
both true false e f name = absurd (cc)
both false w e f name = absurd (cc)

module _ (o : Outside) (i : Inner) (r : Record) (t : Tap) where
  open o use {show, can_open, today}

  abbrev pub seq : ℕ
  seq = i.seq + 1

  abbrev pub line : Bytes
  line = render o i seq r

  -- The write of the line, with whether it succeeded.
  abbrev pub written : (JsonlSink × Directory) × Bool
  written = write_line show can_open today line (i.jsonl, t.traces)

  -- The sink and its files behind the unit.
  abbrev pub after : JsonlSink × Directory
  after = if i.write_jsonl then written.0 else (i.jsonl, t.traces)

  -- What a tap that is switched on leaves of one unit of traffic. The unit has the next number, which
  -- the tap counts from then on, and its reference ends with it. The sink is the one that the write
  -- of the line left, and still counts the bytes of its file. Where the raw sink is on and its file opens, that file holds the
  -- body as it was, neither cut nor masked. Where the line was written, the file that the reference
  -- names ends with it, and no other trace file has changed.
  pub record IsTraced (q : Tap × Option Recorded) : Type 0 where
    pub name : Bytes
    pub answered : q.1 ≡ some (record { seq = seq; reference = name ++ hash o seq })
    pub advanced : q.0.inner ≡ some (record i { seq = seq; jsonl = after.0 })
    pub files : q.0.traces ≡ after.1
    pub counts : Counts after
    pub verbatim :
        i.write_raw ≡ true
        → can_open (raw_name o seq r.kind) ≡ true
        → content (raw_name o seq r.kind) q.0.raw ≡ some r.body
    pub traced :
        i.write_jsonl ≡ true
        → written.1 ≡ true
        → (k : Bytes)
        → bytes_of k q.0.traces ≡ (
            if text_eq name k
            then bytes_of k t.traces ++ (line ++ codes "\n")
            else bytes_of k t.traces)

  replaced :
      (name body : Bytes) (dir : Directory)
      → can_open name ≡ true
      → content name (
          if can_open name then upsert (is_named name) (λ f. (f.0, body)) (name, body) dir else dir)
        ≡ some body
  unfolding content
  replaced name body dir e =
      rw (e, if◌then◌else◌)
        (ap (λ f. f >>= λ f. some f.1)
            (find-upsert (is_named name) (λ f. (f.0, body)) (name, body) (λ f. refl)
              (text_refl name) dir)
          ∙ new (find_first (is_named name) dir))
    where
      new :
          (f : Option (Bytes × Bytes))
          → some (upserted (λ f. (f.0, body)) (name, body) f).1 ≡ some body
      new none = unfold upserted in refl
      new (some f) = unfold upserted in refl

  record_with-IsTraced : Counts (i.jsonl, t.traces) → IsTraced (record_with o i r t)
  unfolding record_with trace write_raw_file
  record_with-IsTraced c = record {
    name = if i.write_jsonl && written.1 then written.0.0.name else [];
    answered =
        ap (λ n. some (record { seq = seq; reference = n }))
          (reference_of i.write_jsonl written.1 written.0 (i.jsonl, t.traces) written.0.0.name
            (hash o seq));
    advanced =
        ap (λ s. some (record i { seq = seq; jsonl = s.0 }))
          (sink_of i.write_jsonl written.0 (i.jsonl, t.traces) _ _);
    files = ap (λ s. s.1) (sink_of i.write_jsonl written.0 (i.jsonl, t.traces) _ _);
    counts =
        either_way written.0 (i.jsonl, t.traces) i.write_jsonl
          (write_line-Writes show can_open today line i.jsonl t.traces c).counts c;
    verbatim = λ on k.
        ap (content (raw_name o seq r.kind)) (then_is i.write_raw _ t.raw on)
        ∙ replaced (raw_name o seq r.kind) r.body t.raw k;
    traced = λ on ok k.
        ap (bytes_of k) (line_of i.write_jsonl written.0 (i.jsonl, t.traces) _ _ on)
        ∙ (write_line-Writes show can_open today line i.jsonl t.traces c).wrote ok k
        ∙ ap
            (λ n.
              if text_eq n k
              then bytes_of k t.traces ++ (line ++ codes "\n")
              else bytes_of k t.traces)
            (sym (both i.write_jsonl written.1 on ok written.0.0.name));
  }

  -- A tap that is switched on and whose sink counts the bytes of its file gives a unit of traffic the
  -- next number and counts on, keeps its body as it was in the raw file, where that sink is on and
  -- its file opens, and writes its line to the end of the trace file that the reference names, where
  -- that write succeeds, with no other trace file changed; and its sink counts the bytes still.
  pub tap_record-IsTraced :
      t.inner ≡ some i → i.enabled ≡ true → Counts (i.jsonl, t.traces) → IsTraced (tap_record o r t)
  unfolding tap_record
  tap_record-IsTraced e on c =
      subst IsTraced
        (sym (
          ap (λ p. record_by o p r t) e
          ∙ ap (λ b. if b then record_with o i r t else (t, none)) on))
        (record_with-IsTraced c)
