-- ===== src/ChannelB/Writer/Sent.antt =====
-- What a connection's writer puts on the socket, and what a decoder makes of it: src/channel_b.
use noobscenic.Prelude.{
  ℕ, ◌+◌, ◌≤◌, Bytes, Bool, true, List, [], ◌∷◌, ◌++◌, Option, none, some, ◌≡◌, subst, refl, sym,
  ap, ◌∙◌, ◌≢◌, All, All-In, In-All, In-keep, inl, inr, Bool-cases, if◌then◌else◌, map, join, keep,
  append-nil, append_assoc, arith, length,
}
use noobscenic.Json.{
  Value, Items, Fields, null, bool, int, real, str, arr, obj, nil, cons, end, field,
}
use noobscenic.ChannelB.Codec.{new, encode, feed}
use noobscenic.ChannelB.Codec.Splits.{stream}
use noobscenic.ChannelB.Codec.Stream.{NoTab, feed-stream}
use noobscenic.ChannelB.Registry.{Outbound}
use noobscenic.Wire.Tap.{Outside}
use noobscenic.ChannelB.Writer.{
  Ordered, ordered, members, member_text, json_body, separated, in_order, write_styled,
  styled_items, styled_fields, Writer, body_of, trace_frame, write_all, write_task,
}

-- Texts without a raw tab, put together.
NoTab-append : (a b : Bytes) → NoTab a → NoTab b → NoTab (a ++ b)
NoTab-append [] b h k = k
NoTab-append (x ∷ a) b h k = (h.0, NoTab-append a b h.1 k)

NoTab-separated : (bs : List Bytes) → All NoTab bs → NoTab (separated bs)
unfolding separated
NoTab-separated [] h = tt
NoTab-separated (b ∷ []) h = h.0
NoTab-separated (b ∷ c ∷ bs) h =
    NoTab-append b _ h.0 (omega arith, (omega arith, NoTab-separated (c ∷ bs) h.1))

All-keep : {A : Type 0} (P : A → Type 0) (p : A → Bool) (xs : List A) → All P xs → All P (keep p xs)
All-keep P p xs h = All-In P (keep p xs) λ a m. In-All P a xs h (In-keep p a xs m).0

All-append : {A : Type 0} (P : A → Type 0) (xs ys : List A) → All P xs → All P ys → All P (xs ++ ys)
All-append P [] ys h k = k
All-append P (x ∷ xs) ys h k = (h.0, All-append P xs ys h.1 k)

-- The text of a member has none.
abbrev Clean : Bytes × Bytes → Type 0
Clean m = NoTab m.1

in_order-Clean : (ms : List (Bytes × Bytes)) → All Clean ms → All Clean (in_order ms)
unfolding in_order
in_order-Clean ms h =
    let part = λ (p : Bytes × Bytes → Bool). All-keep Clean p ms h in
    All-append Clean _ _ (part _) (
      All-append Clean _ _ (part _)
        (All-append Clean _ _ (part _) (All-append Clean _ _ (part _) (part _))))

module _ (to_text : Value → Bytes) (clean : (v : Value) → NoTab (to_text v)) where
  members-NoTab :
      (ms : List (Bytes × Bytes)) → All Clean ms → All NoTab (map (member_text to_text) ms)
  members-NoTab [] h = tt
  members-NoTab (m ∷ ms) h = (
    NoTab-append (to_text (str m.0)) _ (clean (str m.0))
        (omega arith, (omega arith, (omega arith, h.0))),
    members-NoTab ms h.1,
  )

  braced : (a z : ℕ) (b : Bytes) → a ≢ 9 → z ≢ 9 → NoTab b → NoTab ((a ∷ []) ++ (b ++ (z ∷ [])))
  braced a z b h k c = (h, NoTab-append b (z ∷ []) c (k, tt))

  mutual
    unfolding write_styled

    pub write_styled-NoTab : (v : Value) → NoTab (write_styled to_text v)
    write_styled-NoTab null = clean null
    write_styled-NoTab (bool b) = clean (bool b)
    write_styled-NoTab (int z) = clean (int z)
    write_styled-NoTab (real r) = clean (real r)
    write_styled-NoTab (str s) = clean (str s)
    write_styled-NoTab (arr vs) =
        braced b'[' b']' _ (omega arith) (omega arith) (NoTab-separated _ (items-NoTab vs))
    write_styled-NoTab (obj fs) =
        braced b'{' b'}' _ (omega arith) (omega arith)
          (NoTab-separated _ (members-NoTab _ (in_order-Clean _ (fields-Clean fs))))

    items-NoTab : (vs : Items) → All NoTab (styled_items to_text vs)
    items-NoTab nil = tt
    items-NoTab (cons v vs) = (write_styled-NoTab v, items-NoTab vs)

    fields-Clean : (fs : Fields) → All Clean (styled_fields to_text fs)
    fields-Clean end = tt
    fields-Clean (field k v fs) = (write_styled-NoTab v, fields-Clean fs)

module _ (o : Outside) (to_struct : List (Bytes × Value) → Bytes) (style : Bool) where
  abbrev pub bodies : List Outbound → List Bytes
  bodies [] = []
  bodies (out ∷ queue) = body_of o to_struct style out.frame ∷ bodies queue

  -- serde_json escapes the control characters, so that no text it writes holds a raw tab.
  abbrev pub Escapes : Type 0
  Escapes =
      ((v : Value) → NoTab (o.to_text v)) × ((ms : List (Bytes × Value)) → NoTab (to_struct ms))

  body_of-NoTab : Escapes → (v : Value) → NoTab (body_of o to_struct style v)
  unfolding body_of json_body
  body_of-NoTab (c, d) v = elim (Bool-cases style) [
    | inl e ↦ rw (e, if◌then◌else◌) (write_styled-NoTab o.to_text c v)
    | inr e ↦ rw (e, if◌then◌else◌) (by_members (ordered v))
  ]
    where
      by_members :
          (m : Option Ordered)
          → NoTab (elim m [ none ↦ o.to_text v | some u ↦ to_struct (members u) ])
      by_members none = c v
      by_members (some u) = d (members u)

  bodies-All :
      (P : Bytes → Type 0) (queue rest : List Outbound)
      → All (λ out. P (body_of o to_struct style out.frame)) (queue ++ rest)
      → All P (bodies queue)
  bodies-All P [] rest h = tt
  bodies-All P (out ∷ queue) rest h = (h.0, bodies-All P queue rest h.1)

  module _ (conn_id peer : Bytes) (takes : Bytes → Bool) where
    -- What a run of the writer has sent: the frames of a first part of the queue, whole and in
    -- order, and all of them unless the socket refused one.
    pub record Sent (queue : List Outbound) (w : Writer) (r : Writer × Bool) : Type 0 where
      pub done : List Outbound
      pub left : List Outbound
      pub parts : queue ≡ done ++ left
      pub sent : r.0.sent ≡ w.sent ++ stream (bodies done)
      pub all : r.1 ≡ true → left ≡ []

    pub write_task-Sent :
        (queue : List Outbound) (w : Writer)
        → Sent queue w (write_task o to_struct style conn_id peer takes queue w)
    unfolding write_task trace_frame
    write_task-Sent [] w = record {
      done = [];
      left = [];
      parts = refl;
      sent = sym (append-nil w.sent);
      all = λ e. refl;
    }
    write_task-Sent (out ∷ queue) w =
        let bytes = encode (body_of o to_struct style out.frame) in
        let go =
          write_task-Sent queue
            (write_all bytes (trace_frame o to_struct style conn_id peer out w)) in
        elim (Bool-cases (takes bytes)) [
          | inl e ↦
              rw (e, if◌then◌else◌)
                (record {
                  done = out ∷ go.done;
                  left = go.left;
                  parts = ap (λ q. out ∷ q) go.parts;
                  sent = go.sent ∙ append_assoc w.sent bytes _;
                  all = go.all;
                })
          | inr e ↦
              rw (e, if◌then◌else◌)
                (record {
                  done = [];
                  left = out ∷ queue;
                  parts = refl;
                  sent = sym (append-nil w.sent);
                  all = λ q. absurd (cc);
                })
        ]

    -- What a new writer of a connection has sent of its queue, in either style of writing, is read
    -- back by the decoder in whatever pieces the socket delivers it, as the bodies of a first part of
    -- the queue, in order and with no error, and of all of it unless the socket refused a write: for
    -- a writer of JSON that escapes control characters, bodies of at most `n` bytes, reads of at most
    -- `read_chunk`, and a limit of the decoder that leaves room for both.
    pub feed-write_task :
        (n read_chunk max : ℕ) (queue : List Outbound) (w : Writer) (chunks : List Bytes)
        → Escapes
        → w.sent ≡ []
        → All (λ out. length (body_of o to_struct style out.frame) ≤ n) queue
        → n + 2 + read_chunk ≤ max
        → All (λ c. length c ≤ read_chunk) chunks
        → let r = write_task o to_struct style conn_id peer takes queue w in
          join chunks ≡ r.0.sent
          → (done : List Outbound) × (left : List Outbound) × (queue ≡ done ++ left)
            × (r.1 ≡ true → left ≡ [])
            × ((feed (new max) chunks).error ≡ none)
            × ((feed (new max) chunks).frames ≡ bodies done)
    feed-write_task n read_chunk max queue w chunks c idle fits room reads same =
        let s = write_task-Sent queue w in
        let tabs = bodies-All NoTab s.done [] (
          All-In (λ out. NoTab (body_of o to_struct style out.frame)) _
            λ out m. body_of-NoTab c out.frame) in
        let short =
          bodies-All (λ g. length g ≤ n) s.done s.left
            (subst (All (λ out. length (body_of o to_struct style out.frame) ≤ n)) s.parts fits) in
        let bytes : join chunks ≡ stream (bodies s.done) ++ [] =
          same ∙ s.sent ∙ ap (λ a. a ++ stream (bodies s.done)) idle ∙ sym (append-nil _) in
        let read =
          feed-stream n read_chunk max (bodies s.done) [] chunks tabs tt short (omega arith) room
            reads bytes in
        (s.done, s.left, s.parts, s.all, read.0, read.1)
