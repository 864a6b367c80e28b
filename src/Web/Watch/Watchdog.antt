-- ===== src/Web/Watch/Watchdog.antt =====
-- The watchdog of src/web.rs: who is sent out of manual mode, and that it is done once.
use noobscenic.Prelude.{
  ℤ, pos, ◌+ℤ◌, leb_ℤ, Bytes, Bool, true, false, List, [], ◌∷◌, codes, text_eq, text_iff,
  if◌then◌else◌, not, ◌&&◌, keep, map, ◌≡◌, refl, ap, arith, int_laws, Bool-cases, inl, inr, In,
  In-keep, keep-In,
}
use noobscenic.Json
use noobscenic.Json.{Value, obj, end, field}
use noobscenic.Web.State.{Web, Times}
use noobscenic.Web.Watch.{
  stale, is_stale, clear, release, leave, control_frame, Line, poll_control_watchdog_once,
}

-- The time of the last frame and the given time after it have passed.
abbrev pub idle : ℤ → ℤ → Bytes × ℤ → Bool
idle stale_ms now e = leb_ℤ (e.1 +ℤ stale_ms) now

stale-idle : (stale_ms now : ℤ) (e : Bytes × ℤ) → is_stale stale_ms now e ≡ idle stale_ms now e
stale-idle stale_ms now e = grind int_laws

-- {"data": {"data": {"ctrlCode": 4000}, "infoType": 21020}, "encrypt": 0}
abbrev pub end_frame : Value
end_frame = obj (
    field (codes "data")
      (obj (
        field (codes "data") (obj (field (codes "ctrlCode") (Json.int (pos 4000)) end))
          (field (codes "infoType") (Json.int (pos 21020)) end)))
      (field (codes "encrypt") (Json.int (pos 0)) end))

ends_mode : control_frame leave ≡ end_frame
ends_mode = refl

-- A robot that is steered but idle, with a connection that takes a frame.
abbrev pub is_released : Line → ℤ → ℤ → Bytes × ℤ → Bool
is_released line stale_ms now e = idle stale_ms now e && (line.is_connected e.0 && line.takes e.0)

abbrev frame_for : Bytes × ℤ → Bytes × Value
frame_for e = (e.0, end_frame)

sent-release :
    (line : Line) (stale_ms now : ℤ) (es t : Times)
    → (release line (stale stale_ms now es) t).1
      ≡ map frame_for (keep (is_released line stale_ms now) es)
unfolding release stale keep
sent-release line stale_ms now [] t = refl
sent-release line stale_ms now (e ∷ es) t =
    let same = stale-idle stale_ms now e in
    elim (Bool-cases (idle stale_ms now e)) [
      | inr i ↦ rw (same, i, if◌then◌else◌) (sent-release line stale_ms now es t)
      | inl i ↦
          let rest = sent-release line stale_ms now es (clear e.0 t) in
          elim (Bool-cases (line.is_connected e.0)) [
            | inr c ↦ rw (same, i, c, if◌then◌else◌) rest
            | inl c ↦ elim (Bool-cases (line.takes e.0)) [
              | inl f ↦
                  rw (same, i, c, f, if◌then◌else◌, ends_mode) (ap (λ l. (e.0, end_frame) ∷ l) rest)
              | inr f ↦ rw (same, i, c, f, if◌then◌else◌) rest
            ]
          ]
    ]

-- What a pass keeps was there, and its robot is not among those that were released.
kept-release :
    (line : Line) (sns : List Bytes) (t : Times) (e : Bytes × ℤ)
    → In e (release line sns t).0
    → In e t × (In e.0 sns → ⊥)
unfolding release clear
kept-release line [] t e m = (m, λ n. n)
kept-release line (sn ∷ sns) t e m =
    let (there, free) = kept-release line sns (clear sn t) e m in
    let k = In-keep (λ x. not (text_eq x.0 sn)) e t there in
    (k.0, λ n. elim n [ inl same ↦ other same k.1 | inr n ↦ free n ])
  where
    other : sn ≡ e.0 → not (text_eq e.0 sn) ≡ true → ⊥
    other same h = absurd (ground (arith, text_iff e.0 sn, same))

In-map : (e : Bytes × ℤ) (t : Times) → In e t → In e.0 (map (λ x. x.0) t)
In-map e [] m = m
In-map e (x ∷ t) (inl s) = inl (ap (λ y. y.0) s)
In-map e (x ∷ t) (inr m) = inr (In-map e t m)

no_rows :
    (p : Bytes × ℤ → Bool) (t : Times) → ((e : Bytes × ℤ) → In e t → p e ≡ false) → keep p t ≡ []
unfolding keep
no_rows p [] h = refl
no_rows p (e ∷ t) h = rw (h e (inl refl), if◌then◌else◌) (no_rows p t (λ x m. h x (inr m)))

-- What is not released stays.
release-In :
    (line : Line) (sns : List Bytes) (t : Times) (e : Bytes × ℤ)
    → In e t
    → (In e.0 sns → ⊥)
    → In e (release line sns t).0
unfolding release clear
release-In line [] t e m free = m
release-In line (sn ∷ sns) t e m free =
    release-In line sns (clear sn t) e
      (unfold clear in
        keep-In (λ x. not (text_eq x.0 sn)) e t m
          (ground (arith, text_iff e.0 sn, λ (s : sn ≡ e.0). free (inl s))))
      (λ n. free (inr n))

map-In : (n : Bytes) (t : Times) → In n (map (λ x. x.0) t) → (e : Bytes × ℤ) × (In e t) × (e.0 ≡ n)
map-In n [] m = absurd m
map-In n (x ∷ t) (inl s) = (x, inl refl, s)
map-In n (x ∷ t) (inr m) = let (e, there, s) = map-In n t m in (e, inr there, s)

-- A pass of the watchdog sends {"ctrlCode": 4000}, the end of manual mode, to exactly the robots that
-- have been steered, of which the last frame is at least the given time ago, and that have a
-- connection which takes it, once for each entry and in their order. It forgets those that are that
-- long without a frame, with or without a connection, keeps every other robot, and changes nothing
-- else. A second pass at the same time sends nothing and changes nothing.
pub watchdog_once :
    {F : Type 0} (line : Line) (now stale_ms : ℤ) (w : Web F)
    → let r = poll_control_watchdog_once line now stale_ms w in
      (r.1 ≡ map frame_for (keep (is_released line stale_ms now) w.controls))
      × ((e : Bytes × ℤ) → In e r.0.controls → In e w.controls × (idle stale_ms now e ≡ false))
      × ((e : Bytes × ℤ)
          → In e w.controls
          → ((d : Bytes × ℤ) → In d w.controls → d.0 ≡ e.0 → idle stale_ms now d ≡ false)
          → In e r.0.controls)
      × (r.0 ≡ record w { controls = r.0.controls })
      × (poll_control_watchdog_once line now stale_ms r.0 ≡ (r.0, []))
unfolding poll_control_watchdog_once
watchdog_once line now stale_ms w = (
  sent-release line stale_ms now w.controls w.controls,
  left,
  stays,
  refl,
  rw nothing (unfold release in refl),
)
  where
    after : Times
    after = (release line (stale stale_ms now w.controls) w.controls).0

    not_stale : (e : Bytes × ℤ) → In e after → In e w.controls × (is_stale stale_ms now e ≡ false)
    not_stale e m =
        let (there, free) = kept-release line (stale stale_ms now w.controls) w.controls e m in
        elim (Bool-cases (is_stale stale_ms now e)) [
          | inl s ↦ absurd (
              free
                (unfold stale in In-map e _ (keep-In (is_stale stale_ms now) e w.controls there s)))
          | inr s ↦ (there, s)
        ]

    left : (e : Bytes × ℤ) → In e after → In e w.controls × (idle stale_ms now e ≡ false)
    left e m = let (there, s) = not_stale e m in let same = stale-idle stale_ms now e in (there, cc)

    stays :
        (e : Bytes × ℤ)
        → In e w.controls
        → ((d : Bytes × ℤ) → In d w.controls → d.0 ≡ e.0 → idle stale_ms now d ≡ false)
        → In e after
    stays e m h = release-In line (stale stale_ms now w.controls) w.controls e m λ n.
        let (d, k, s) = map-In e.0 (keep (is_stale stale_ms now) w.controls) (unfold stale in n) in
        let (there, i) = In-keep (is_stale stale_ms now) d w.controls k in
        let q = h d there s in let same = stale-idle stale_ms now d in absurd (cc)

    nothing : stale stale_ms now after ≡ []
    nothing =
        unfold stale in
        ap (map (λ x. x.0)) (no_rows (is_stale stale_ms now) after (λ e m. (not_stale e m).1))
