-- ===== src/Db/Events/Latest.antt =====
-- What a query on the `events` table of src/db/queries.rs finds behind an insertion.
use native.Mathlib.Omega.{arith}
use noobscenic.Prelude.{
  ℕ, suc, ◌<◌, ℤ, ◌≤ℤ◌, Bytes, Bool, true, false, [], ◌∷◌, ◌++◌, Option, none, some, ◌==◌, ◌=ℤ◌,
  ltb_ℤ, ltb, ◌&&◌, ◌||◌, not, keep, text_eq, text_refl, text_iff, if◌then◌else◌, Bool-cases, ◌≡◌,
  ◌≢◌, refl, ap, ap₂, ◌∙◌, inl, inr, In, In-keep, append-nil,
}
use noobscenic.Proto.InfoType
use noobscenic.Db.Rows.{newest_by, max_id}
use noobscenic.Db.Rows.Laws.{
  keep-append, keep-one, keep-none, keep-keep, keep-drop, newest_by-last, In-max_id,
}
use noobscenic.Db.Events.{
  Event, Events, is_of, is_status, is_bind, insert_row, is_replaced, insert_event, is_before,
  payload_of, of_type, latest_event_payload,
}

abbrev pub new_id : Events → ℕ
new_id t = suc (max_id (λ r. r.id) t)

newer : (a b : ℤ) (i j : ℕ) → a ≤ℤ b → i < j → (ltb_ℤ a b || a =ℤ b && ltb i j) ≡ true
newer a b i j h k = ground arith

own_status :
    (sn : Bytes) (e : Event)
    → e.sn ≡ some sn
    → is_status e ≡ true
    → (t : Events) → of_type sn InfoType.status (record e { id = new_id t }) ≡ true
unfolding of_type is_of is_status
own_status sn e s st t = rw (s, st, text_refl sn) refl

-- The new row survives the deletion; a status that was there for the device does not.
spares_new : (a b : Bool) (n : ℕ) → not (a && not (n == n) && b) ≡ true
spares_new a b n = ground arith

drops_old : (a b : Bool) (i n : ℕ) → i < n → (a && b) ≡ true → not (a && not (i == n) && b) ≡ false
drops_old a b i n h k = ground arith

status_rows : Bool → Bytes → Events → Events
status_rows history sn t = if history then keep (of_type sn InfoType.status) t else []

-- The rows of the device with that type, behind the insertion of a status.
kept_statuses :
    (history : Bool) (sn : Bytes) (e : Event) (t : Events)
    → e.sn ≡ some sn
    → is_status e ≡ true
    → keep (of_type sn InfoType.status) (insert_event history sn e t)
      ≡ status_rows history sn t ++ record e { id = new_id t } ∷ []
unfolding insert_event insert_row status_rows is_replaced of_type is_status is_of
kept_statuses true sn e t s st =
    keep-append _ t _
    ∙ ap (λ l. keep (of_type sn InfoType.status) t ++ l) (keep-one _ _ (own_status sn e s st t))
kept_statuses false sn e t s st =
    rw (st, if◌then◌else◌)
      (ap (keep q) (keep-append p t _)
        ∙ keep-append q (keep p t) _
        ∙ ap₂ (λ a b. a ++ b) (keep-drop p q t gone)
            (ap (keep q) (keep-one p row (spares_new (is_of sn e) (is_status e) (new_id t)))
              ∙ keep-one q row (own_status sn e s st t)))
  where
    p : Event → Bool
    p r = not (is_replaced sn true (new_id t) r)

    q : Event → Bool
    q = of_type sn InfoType.status

    row : Event
    row = record e { id = new_id t }

    gone : (r : Event) → In r t → q r ≡ true → p r ≡ false
    gone r m h =
        drops_old (is_of sn r) (is_status r) r.id (new_id t)
          (let k = In-max_id (λ r. r.id) r t m in omega arith) h

-- The status that a device reports is the one that the server answers with from then on, with either build, as long as no
-- row of the table is newer than the clock; without `history` it is the only status row of the device.
pub latest-insert_event :
    (history : Bool) (sn : Bytes) (e : Event) (t : Events)
    → e.sn ≡ some sn
    → is_status e ≡ true
    → ((r : Event) → In r t → r.received_ms ≤ℤ e.received_ms)
    → (latest_event_payload sn InfoType.status (insert_event history sn e t) ≡ e.payload)
      × (keep (of_type sn InfoType.status) (insert_event false sn e t)
          ≡ record e { id = new_id t } ∷ [])
unfolding latest_event_payload status_rows is_before
latest-insert_event history sn e t s st clock = (
  ap (λ l. payload_of (newest_by is_before l)) (kept_statuses history sn e t s st)
      ∙ ap payload_of (
          newest_by-last is_before (status_rows history sn t) (record e { id = new_id t })
            (older history)),
  kept_statuses false sn e t s st,
)
  where
    older :
        (history : Bool) (r : Event)
        → In r (status_rows history sn t)
        → is_before r (record e { id = new_id t }) ≡ true
    older true r m =
        let k = (In-keep _ r t m).0 in
        let l = In-max_id (λ r. r.id) r t k in
        newer r.received_ms e.received_ms r.id (new_id t) (clock r k) (omega arith)
    older false r m = absurd m

not_both :
    (sn k : Bytes) (o : Option Bytes)
    → sn ≢ k
    → elim o [ none ↦ false | some j ↦ text_eq j k ] ≡ true
    → elim o [ none ↦ false | some j ↦ text_eq j sn ] ≡ false
not_both sn k none n h = refl
not_both sn k (some j) n h = ground (arith, text_iff j k, text_iff j sn)

appended :
    (sn k : Bytes) (e : Event) (t : Events)
    → e.sn ≡ some sn
    → sn ≢ k
    → keep (is_of k) (insert_row e t) ≡ keep (is_of k) t
unfolding insert_row is_of
appended sn k e t s n =
    keep-append (is_of k) t _
    ∙ ap (λ l. keep (is_of k) t ++ l) (keep-none (is_of k) (record e { id = new_id t }) foreign)
    ∙ append-nil (keep (is_of k) t)
  where
    foreign : is_of k (record e { id = new_id t }) ≡ false
    foreign = rw (s) (ground (arith, text_iff sn k))

shielded : (a b c : Bool) → a ≡ false → not (a && b && c) ≡ true
shielded a b c h = ground arith

-- An insertion for one device leaves the rows of every other device as they are, in their order, with either build.
pub insert_event_keeps_others :
    (history : Bool) (sn k : Bytes) (e : Event) (t : Events)
    → e.sn ≡ some sn
    → sn ≢ k
    → keep (is_of k) (insert_event history sn e t) ≡ keep (is_of k) t
unfolding insert_event is_replaced is_of
insert_event_keeps_others true sn k e t s n = appended sn k e t s n
insert_event_keeps_others false sn k e t s n =
    elim (Bool-cases (not (is_status e) && not (is_bind e.endpoint))) [
      | inl ignored ↦ rw (ignored, if◌then◌else◌) refl
      | inr stored ↦
          rw (stored, if◌then◌else◌)
            (keep-keep _ (is_of k) (λ r h. shielded (is_of sn r) _ _ (not_both sn k r.sn n h))
                (insert_row e t)
              ∙ appended sn k e t s n)
    ]
