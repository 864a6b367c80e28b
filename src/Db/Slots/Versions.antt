-- ===== src/Db/Slots/Versions.antt =====
-- The version of a zone list, and the staged backup, of src/db/queries.rs.
use noobscenic.Prelude.{
  ℕ, ◌+◌, ◌≤◌, ℤ, Bytes, Bool, true, false, List, Option, none, some, text_eq, text_refl,
  find_first, keep, length, ◌>>=◌, ◌≡◌, refl, ap, ◌∙◌, arith, if◌then◌else◌,
}
use noobscenic.Db.Rows.{upsert}
use noobscenic.Db.Rows.Laws.{find-upsert, length-keep-upsert, find-and, upserted}
use noobscenic.Db.Slots.{
  AreaSettings, is_area, load_area_settings, first_area, read_back, written_over, version_of,
  store_area_settings, record_zone_write, MapBackup, is_backup, new_backup, upsert_map_backup,
  load_map_backup_by_token, load_map_backup_meta, load_map_backup,
}

abbrev pub area_version : Bytes → List AreaSettings → ℕ
area_version sn t = version_of (load_area_settings sn t)

load_written :
    (sn : Bytes) (change : AreaSettings → AreaSettings) (fresh : AreaSettings)
    → ((r : AreaSettings) → is_area sn (change r) ≡ is_area sn r)
    → is_area sn fresh ≡ true
    → (t : List AreaSettings)
    → load_area_settings sn (upsert (is_area sn) change fresh t)
      ≡ some (upserted change fresh (load_area_settings sn t))
unfolding load_area_settings
load_written sn = find-upsert (is_area sn)

-- What one statement on a zone list leaves for the device: the version that it returns is the old
-- one and one, is the one that is loaded from then on, and so is the payload.
abbrev pub Renewed : Bytes → Bytes → List AreaSettings → List AreaSettings × ℕ → Type 0
Renewed sn payload t r =
    (r.1 ≡ area_version sn t + 1)
    × (area_version sn r.0 ≡ r.1)
    × ((load_area_settings sn r.0 >>= λ a. a.payload) ≡ some payload)

-- A zone list that was read back, and one that was sent to the robot, each become the list that is
-- loaded for the device, under the version that the statement returns, which is one above the old.
pub version-writes :
    (sn payload : Bytes) (trace_ref : Option Bytes) (now : ℤ) (t : List AreaSettings)
    → Renewed sn payload t (store_area_settings sn payload trace_ref now t)
      × Renewed sn payload t (record_zone_write sn payload now t)
unfolding store_area_settings record_zone_write upserted first_area read_back written_over
version-writes sn payload trace_ref now t =
    let read =
      load_written sn (read_back now payload trace_ref) (first_area sn now payload trace_ref)
        (λ r. refl) (text_refl sn) t in
    let wrote =
      load_written sn (written_over now payload) (first_area sn now payload none) (λ r. refl)
        (text_refl sn) t in
    (
      rw read (renewed_read (load_area_settings sn t)),
      rw wrote (renewed_write (load_area_settings sn t)),
    )
  where
    renewed_read :
        (o : Option AreaSettings)
        → let a =
            upserted (read_back now payload trace_ref) (first_area sn now payload trace_ref) o in
          (a.version ≡ version_of o + 1) × (a.version ≡ a.version) × (a.payload ≡ some payload)
    renewed_read none = (refl, refl, refl)
    renewed_read (some a) = (refl, refl, refl)

    renewed_write :
        (o : Option AreaSettings)
        → let a = upserted (written_over now payload) (first_area sn now payload none) o in
          (a.version ≡ version_of o + 1) × (a.version ≡ a.version) × (a.payload ≡ some payload)
    renewed_write none = (refl, refl, refl)
    renewed_write (some a) = (refl, refl, refl)

chosen :
    (c : Bool) (b : MapBackup) {blob : Bytes}
    → b.blob ≡ blob
    → ((if c then some b else none) >>= λ b. some b.blob) ≡ (if c then some blob else none)
chosen true b e = ap some e
chosen false b e = refl

-- The backup that is staged last is the one that the robot downloads under its token, and no other
-- token of the device leads to a blob any more, as long as there was at most one backup for the
-- device; the digest and the size that are shown are those of that blob.
pub load-upsert_map_backup :
    (sn : Bytes) (name : Option Bytes) (md5 token k blob : Bytes) (now : ℤ) (t : List MapBackup)
    → length (keep (is_backup sn) t) ≤ 1
    → let u = upsert_map_backup sn name md5 token blob now t in
      (load_map_backup_by_token sn k u ≡ (if text_eq token k then some blob else none))
      × (load_map_backup sn u ≡ some (md5, blob))
      × (load_map_backup_meta sn u ≡ some (now, (name, (md5, length blob))))
      × (length (keep (is_backup sn) u) ≤ 1)
unfolding upsert_map_backup load_map_backup load_map_backup_meta load_map_backup_by_token new_backup
    upserted
load-upsert_map_backup sn name md5 token k blob now t one =
    let found =
      find-upsert (is_backup sn) (restage) (new_backup sn name md5 token blob now) (λ r. refl)
        (text_refl sn) t in
    let count =
      length-keep-upsert (is_backup sn) (restage) (new_backup sn name md5 token blob now)
        (λ r. refl) (text_refl sn) t in
    let still : length (
          keep (is_backup sn)
            (upsert (is_backup sn) restage (new_backup sn name md5 token blob now) t))
        ≤ 1 =
      omega (arith, count) in
    let r = staged (find_first (is_backup sn) t) in
    (
      ap (λ o. o >>= λ b. some b.blob) (find-and (is_backup sn) (λ b. text_eq b.token k) _ still)
          ∙ rw (found, r.2) (chosen (text_eq token k) _ r.1),
      rw (found, r.0, r.1) refl,
      rw (found, r.0, r.3, r.4, r.5) refl,
      still,
    )
  where
    restage : MapBackup → MapBackup
    restage b = record b {
      received_ms = now;
      record_name = name;
      md5 = md5;
      size = length blob;
      token = token;
      blob = blob;
    }

    staged :
        (o : Option MapBackup)
        → let b = upserted restage (new_backup sn name md5 token blob now) o in
          (b.md5 ≡ md5)
          × (b.blob ≡ blob)
          × (b.token ≡ token)
          × (b.received_ms ≡ now)
          × (b.record_name ≡ name)
          × (b.size ≡ length blob)
    staged none = (refl, refl, refl, refl, refl, refl)
    staged (some b) = (refl, refl, refl, refl, refl, refl)
