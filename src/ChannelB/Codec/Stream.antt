-- ===== src/ChannelB/Codec/Stream.antt =====
-- A stream of frames and the ways in which the socket cuts it: src/channel_b/codec.rs.
use native.Mathlib.Decide.{dec_le}
use noobscenic.Prelude.{
  ℕ, ◌+◌, ◌≤◌, ◌≡◌, refl, ap, ap₂, sym, Bytes, List, [], ◌∷◌, ◌++◌, none, some, subst, ◌≢◌, arith,
  length, length-append, join, append-nil, append_assoc, All, starts_with,
}
use noobscenic.ChannelB.Codec.{
  delimiter, oversize, Result, ok, err, Decoder, new, encode, find_delimiter, push, Fed, after_push,
  feed,
}
use noobscenic.ChannelB.Codec.Find.{find-append, find_within}
use noobscenic.ChannelB.Codec.Splits.{Splits, Splits-append, Splits-unique, stream, first_frame}
use noobscenic.ChannelB.Codec.Push.{Pushed, push-Pushed}

-- A JSON text as the serialiser writes it holds no raw tab.
abbrev pub NoTab : Bytes → Type 0
NoTab = All (λ c. c ≢ b'\t')

find-NoTab : (p : Bytes) → NoTab p → find_delimiter p ≡ none
unfolding find_delimiter starts_with
find-NoTab [] h = refl
find-NoTab (a ∷ []) h = ground arith
find-NoTab (a ∷ b ∷ p) h = ground (arith, find-NoTab (b ∷ p) h.1)

pub find-NoTab_frame :
    (f rest : Bytes) → NoTab f → find_delimiter (f ++ (delimiter ++ rest)) ≡ some (length f)
unfolding find_delimiter starts_with
find-NoTab_frame [] rest h = refl
find-NoTab_frame (a ∷ []) rest h = ground arith
find-NoTab_frame (a ∷ b ∷ f) rest h = ground (arith, find-NoTab_frame (b ∷ f) rest h.1)

-- The bytes that are sent split into the frames that were sent.
pub stream-Splits :
    (gs : List Bytes) (p : Bytes) → All NoTab gs → NoTab p → Splits (stream gs ++ p) gs p
unfolding encode
stream-Splits [] p hs h = (find-NoTab p h, refl)
stream-Splits (g ∷ gs) p hs h =
    let shape : stream (g ∷ gs) ++ p ≡ g ++ (delimiter ++ (stream gs ++ p)) = simp append_assoc in
    (
      stream gs ++ p,
      shape,
      rw shape (find-NoTab_frame g (stream gs ++ p) hs.0),
      stream-Splits gs p hs.1 h,
    )

-- The frames that a part of the input completes are the first of the whole.
Splits-prefix :
    (x y : Bytes) (fs gs : List Bytes) (r p : Bytes)
    → Splits x fs r
    → Splits (x ++ y) gs p
    → (hs : List Bytes) × (gs ≡ fs ++ hs) × Splits (r ++ y) hs p
Splits-prefix x y [] gs r p h k = (gs, refl, rw (h.1) at k)
Splits-prefix x y (f ∷ fs) [] r p (t, hb, hf, hs) k =
    absurd (cc (find-append x y (length f) hf, k.0))
Splits-prefix x y (f ∷ fs) (g ∷ gs) r p (t, hb, hf, hs) (u, kb, kf, ks) =
    let (same, behind) = first_frame x y f g t u hb hf kb kf in
    let (hs', tails, left) = Splits-prefix t y fs gs r p hs (rw behind ks) in
    (hs', ap₂ ◌∷◌ (sym same) tails, left)

-- What may be left in the buffer when every frame has at most `n` bytes.
rest_bound :
    (r y : Bytes) (gs : List Bytes) (p : Bytes) (n : ℕ)
    → find_delimiter r ≡ none
    → Splits (r ++ y) gs p
    → All (λ g. length g ≤ n) gs
    → length p ≤ n
    → length r ≤ n + 2
rest_bound r y [] p n e h fits last = omega (arith, ap length h.1, length-append {0} r y)
rest_bound r y (g ∷ gs) p n e (u, hb, hf, hs) fits last = elim (dec_le (length r) (length g + 2)) [
  | yes short ↦ omega arith
  | no long ↦ absurd (cc (e, find_within r y (length g) hf (omega arith)))
]

-- The buffer of a connection: it holds no delimiter.
abbrev Drained : Decoder → Type 0
Drained d = find_delimiter d.buf ≡ none

Splits-Drained : (b : Bytes) (fs : List Bytes) (r : Bytes) → Splits b fs r → find_delimiter r ≡ none
Splits-Drained b [] r h = rw (← h.1) h.0
Splits-Drained b (f ∷ fs) r (t, hb, hf, hs) = Splits-Drained t fs r hs

after_push-Splits :
    (d : Decoder) (c rest : Bytes) (r : Decoder × Result (List Bytes)) (later : Fed)
    → Pushed d c r
    → (Drained r.0 → later.error ≡ none → Splits (r.0.buf ++ rest) later.frames later.decoder.buf)
    → (after_push r later).error ≡ none
    → Splits (d.buf ++ (c ++ rest)) (after_push r later).frames (after_push r later).decoder.buf
unfolding after_push
after_push-Splits d c rest (d', err e) later h ih q = cc
after_push-Splits d c rest (d', ok fs) later h ih q = rw (← append_assoc d.buf c rest) (
    Splits-append (d.buf ++ c) rest fs later.frames d'.buf later.decoder.buf h.0
      (ih (Splits-Drained (d.buf ++ c) fs d'.buf h.0) q))

-- With no error, what was delivered and what is buffered split the bytes received.
feed-Splits :
    (d : Decoder) (chunks : List Bytes)
    → Drained d
    → (feed d chunks).error ≡ none
    → Splits (d.buf ++ join chunks) (feed d chunks).frames (feed d chunks).decoder.buf
unfolding feed
feed-Splits d [] e q = rw append-nil (e, refl)
feed-Splits d (c ∷ cs) e q =
    after_push-Splits d c (join cs) (push d c) (feed (push d c).0 cs) (push-Pushed d c)
      (feed-Splits (push d c).0 cs) q

-- From a decoder with no delimiter in its buffer, two ways to cut the same bytes into reads
-- deliver the same frames and leave the same buffer, if neither of them runs into the limit.
pub feed_chunking :
    (d : Decoder) (chunks others : List Bytes)
    → find_delimiter d.buf ≡ none
    → join chunks ≡ join others
    → (feed d chunks).error ≡ none
    → (feed d others).error ≡ none
    → ((feed d chunks).frames ≡ (feed d others).frames)
      × ((feed d chunks).decoder.buf ≡ (feed d others).decoder.buf)
feed_chunking d chunks others e same q r =
    Splits-unique (d.buf ++ join chunks) _ _ _ _ (feed-Splits d chunks e q)
      (rw same (feed-Splits d others e r))

-- The sizes that never run into the limit: frames of at most `n` bytes and reads of at most
-- `read_chunk`, with both and two bytes of a delimiter below it.
record Remaining (n read_chunk : ℕ) (d : Decoder) (rest : Bytes) : Type 0 where
  pub frames : List Bytes
  pub partial : Bytes
  pub splits : Splits (d.buf ++ rest) frames partial
  pub fits : All (λ g. length g ≤ n) frames
  pub partial_fits : length partial ≤ n
  pub room : n + 2 + read_chunk ≤ d.max
  pub drained : Drained d

All-append_right {ℓ κ} :
    {A : Type ℓ} (P : A → Type κ) (xs ys : List A) → All P (xs ++ ys) → All P ys
All-append_right P [] ys h = h
All-append_right P (x ∷ xs) ys h = All-append_right P xs ys h.1

after_push-ok :
    (n read_chunk : ℕ) (d : Decoder) (c rest : Bytes) (r : Decoder × Result (List Bytes))
    (later : Fed)
    → Pushed d c r
    → length c ≤ read_chunk
    → Remaining n read_chunk d (c ++ rest)
    → (Remaining n read_chunk r.0 rest → later.error ≡ none)
    → (after_push r later).error ≡ none
unfolding after_push
after_push-ok n read_chunk d c rest (d', err (oversize len m)) later h l m' ih = absurd (
    omega (
      arith,
      m'.room,
      rest_bound d.buf (c ++ rest) m'.frames m'.partial n m'.drained m'.splits m'.fits
          m'.partial_fits,
      length-append {0} d.buf c,
      h.1,
      h.2,
    ))
after_push-ok n read_chunk d c rest (d', ok fs) later h l m ih =
    let (hs, e, tail) =
      Splits-prefix (d.buf ++ c) rest fs m.frames d'.buf m.partial h.0 (rw append_assoc m.splits) in
    ih (record {
      frames = hs;
      partial = m.partial;
      splits = tail;
      fits = All-append_right (λ g. length g ≤ n) fs hs (subst (All (λ g. length g ≤ n)) e m.fits);
      partial_fits = m.partial_fits;
      room = rw h.3 m.room;
      drained = Splits-Drained (d.buf ++ c) fs d'.buf h.0;
    })

feed-ok :
    (n read_chunk : ℕ) (d : Decoder) (chunks : List Bytes)
    → All (λ c. length c ≤ read_chunk) chunks
    → Remaining n read_chunk d (join chunks)
    → (feed d chunks).error ≡ none
unfolding feed
feed-ok n read_chunk d [] l m = refl
feed-ok n read_chunk d (c ∷ cs) l m =
    after_push-ok n read_chunk d c (join cs) (push d c) (feed (push d c).0 cs) (push-Pushed d c) l.0
      m (feed-ok n read_chunk (push d c).0 cs l.1)

-- Tab-free frames of at most `n` bytes, and the beginning of a next one, sent in reads of at most
-- `read_chunk` bytes to a new decoder whose limit leaves room for both, are delivered as they
-- were sent, with no error, and the beginning of the next one stays in the buffer.
pub feed-stream :
    (n read_chunk max : ℕ) (frames : List Bytes) (partial : Bytes) (chunks : List Bytes)
    → All NoTab frames
    → NoTab partial
    → All (λ g. length g ≤ n) frames
    → length partial ≤ n
    → n + 2 + read_chunk ≤ max
    → All (λ c. length c ≤ read_chunk) chunks
    → join chunks ≡ stream frames ++ partial
    → ((feed (new max) chunks).error ≡ none)
      × ((feed (new max) chunks).frames ≡ frames)
      × ((feed (new max) chunks).decoder.buf ≡ partial)
feed-stream n read_chunk max frames partial chunks tabs tab fits last room reads same =
    let sent = stream-Splits frames partial tabs tab in
    let idle : Drained (new max) = unfold find_delimiter in refl in
    let no_error = feed-ok n read_chunk (new max) chunks reads (record {
      frames = frames;
      partial = partial;
      splits = rw same sent;
      fits = fits;
      partial_fits = last;
      room = room;
      drained = idle;
    }) in
    let same_split =
      Splits-unique (join chunks) _ _ _ _ (feed-Splits (new max) chunks idle no_error)
        (rw same sent) in
    (no_error, same_split.0, same_split.1)
