-- ===== src/Db/Maps/Newest.antt =====
-- What is found of the maps, `map_uploads` of src/db/queries.rs, behind an upload.
use noobscenic.Prelude.{
  ℕ, ◌==◌, ◌<◌, ℤ, Bytes, Bool, true, false, List, [], ◌∷◌, ◌++◌, Option, none, some, suc,
  unwrap_or, codes, refl, ◌&&◌, not, keep, ap₂, ◌>>=◌, text_eq, text_refl, text_iff, ltb_ℤ, ◌≡◌,
  ◌≢◌, ap, ◌∙◌, arith, append-nil,
}
use noobscenic.Db.Rows.{newest_by, max_id}
use noobscenic.Db.Rows.Laws.{keep-append, keep-one, keep-none, keep-keep, keep-drop, In-max_id}
use noobscenic.Json.{Value}
use noobscenic.Map.{MapUpload}
use noobscenic.Db.Maps.{
  MapRow, map_row, next_id, is_superseded, insert_map_upload, latest_map, latest_map_path_id,
  latest_map_meta,
}

module _ {F : Type 0} (areas : List Value → Option Bytes) (sn : Bytes) (u : MapUpload F)
    (compressed : Bytes) (trace_ref : Option Bytes) (now : ℤ) (t : List (MapRow F)) where
  abbrev pub row : MapRow F
  row = map_row areas (next_id t) sn u compressed trace_ref now

  abbrev pub after : List (MapRow F)
  after = insert_map_upload areas sn u compressed trace_ref now t

  drops : (a : Bool) (i n : ℕ) → i < n → a ≡ true → not (a && not (i == n)) ≡ false
  drops a i n h k = ground arith

  spares : (a : Bool) (n : ℕ) → not (a && not (n == n)) ≡ true
  spares a n = ground arith

  -- What an upload stores of the grid, under the next id: each number of the upload in its column,
  -- the compressed cells, both coordinates of the dock or neither, the areas as JSON, the reference of
  -- the trace and the time.
  abbrev pub received : MapRow F
  received = record {
    id = suc (max_id (λ r. r.id) t);
    sn = sn;
    map_id = u.map_id;
    auto_area_id = u.auto_area_id;
    path_id = u.path_id;
    width = u.width;
    height = u.height;
    resolution = u.resolution;
    x_min = u.x_min;
    y_min = u.y_min;
    lz4_len = u.lz4_len;
    cells_lz4 = compressed;
    dock_x = elim u.charge_handle_pos [ some (x ∷ y ∷ _) ↦ some x | some _ ↦ none | none ↦ none ];
    dock_y = elim u.charge_handle_pos [ some (x ∷ y ∷ _) ↦ some y | some _ ↦ none | none ↦ none ];
    dock_phi = u.charge_handle_phi;
    dock_state = u.charge_handle_state;
    areas_json = unwrap_or (codes "[]") (areas u.area);
    trace_ref = trace_ref;
    received_ms = now;
  }

  row-received : row ≡ received
  unfolding map_row
  row-received = docked u.charge_handle_pos refl
    where
      docked : (o : Option (List ℤ)) → u.charge_handle_pos ≡ o → row ≡ received
      docked none e = rw (e) refl
      docked (some []) e = rw (e) refl
      docked (some (x ∷ [])) e = rw (e) refl
      docked (some (x ∷ y ∷ l)) e = rw (e) refl

  -- Behind an upload the table holds that grid alone for the device, each column with the value that
  -- was received; it is the row that is found as the device's newest map, and the path and the
  -- numbers that are asked for alone are those of the upload.
  pub latest-insert_map_upload :
      (keep (λ r. text_eq r.sn sn) after ≡ received ∷ [])
      × (latest_map sn after ≡ some received)
      × (latest_map_path_id sn after ≡ u.path_id)
      × (latest_map_meta sn after ≡ some (u.map_id, (u.width, (u.height, now))))
  unfolding insert_map_upload latest_map latest_map_path_id latest_map_meta map_row newest_by
  latest-insert_map_upload = (
    only ∙ ap (λ r. r ∷ []) row-received,
    ap (newest_by by_time) only ∙ ap some row-received,
    ap (λ l. newest_by by_time l >>= λ r. r.path_id) only,
    ap (λ l. newest_by by_time l >>= λ r. some (r.map_id, (r.width, (r.height, r.received_ms))))
        only,
  )
    where
      p : MapRow F → Bool
      p r = not (is_superseded sn (next_id t) r)

      q : MapRow F → Bool
      q r = text_eq r.sn sn

      by_time : MapRow F → MapRow F → Bool
      by_time a b = ltb_ℤ a.received_ms b.received_ms

      only : keep q (keep p (t ++ row ∷ [])) ≡ row ∷ []
      only =
          ap (keep q) (keep-append p t (row ∷ []))
          ∙ keep-append q (keep p t) (keep p (row ∷ []))
          ∙ ap₂ (λ a b. a ++ b)
              (keep-drop p q t λ r m h.
                let k = In-max_id (λ r. r.id) r t m in
                drops (text_eq r.sn sn) r.id (next_id t) (omega arith) h)
              (ap (keep q) (keep-one p row (spares (text_eq sn sn) (next_id t)))
                ∙ keep-one q row (text_refl sn))

  -- An upload of one device leaves the maps of every other device.
  pub insert_map_upload_keeps_others :
      (k : Bytes) → sn ≢ k → keep (λ r. text_eq r.sn k) after ≡ keep (λ r. text_eq r.sn k) t
  unfolding insert_map_upload map_row
  insert_map_upload_keeps_others k n =
      keep-keep p q (λ r h. foreign r.sn (not (r.id == next_id t)) h) (t ++ row ∷ [])
      ∙ keep-append q t (row ∷ [])
      ∙ ap (λ l. keep q t ++ l) (keep-none q row (ground (arith, text_iff sn k)))
      ∙ append-nil (keep q t)
    where
      p : MapRow F → Bool
      p r = not (is_superseded sn (next_id t) r)

      q : MapRow F → Bool
      q r = text_eq r.sn k

      foreign : (j : Bytes) (i : Bool) → text_eq j k ≡ true → not (text_eq j sn && i) ≡ true
      foreign j i h = ground (arith, text_iff j k, text_iff j sn)
