-- ===== src/Db/Paths/Stored.antt =====
-- What is loaded of the clean paths, `clean_paths` of src/db/queries.rs, behind a write.
use noobscenic.Prelude.{
  suc, ℤ, Bytes, true, false, Option, none, some, text_eq, text_refl, text_iff, find_first, ◌≡◌,
  ◌≢◌, refl, ◌∙◌, arith, ◌=ℤ◌, =ℤ_iff, ◌⊎◌, ◌&&◌,
}
use noobscenic.Db.Rows.{max_id}
use noobscenic.Db.Rows.Laws.{find-upsert, find-upsert_other, upserted}
use noobscenic.Db.Paths.{
  CleanPath, Paths, PathWrite, is_path, load_clean_path, current_path_run_id, rewrite, fresh_path,
  upsert_clean_path,
}

same_path : (sn : Bytes) (path_id : ℤ) → (text_eq sn sn && path_id =ℤ path_id) ≡ true
same_path sn path_id = ground (arith, text_refl sn, =ℤ_iff path_id path_id)

-- The row that a write leaves, from the one that was there: a path that is there keeps its run and
-- its account where the write has none, and a new one joins the run in progress.
unfoldable pub written : Bytes → ℤ → PathWrite → Paths → Option CleanPath → CleanPath
written sn path_id w t none =
    fresh_path (suc (max_id (λ p. p.id) t.paths)) sn path_id (current_path_run_id sn t) w
written sn path_id w t (some p) = rewrite w p

-- What a write leaves to load: the row of the path is the one that was there, with the written
-- columns, or a new one.
pub load-upsert_clean_path :
    (sn : Bytes) (path_id : ℤ) (w : PathWrite) (t : Paths)
    → load_clean_path sn path_id (upsert_clean_path sn path_id w t)
      ≡ some (written sn path_id w t (load_clean_path sn path_id t))
unfolding load_clean_path upsert_clean_path written upserted rewrite fresh_path
load-upsert_clean_path sn path_id w t =
    find-upsert (is_path sn path_id) (rewrite w) _ (λ r. refl) (same_path sn path_id) t.paths
    ∙ elim (find_first (is_path sn path_id) t.paths)
        as (λ o.
          some (
            upserted (rewrite w)
              (fresh_path (suc (max_id (λ p. p.id) t.paths)) sn path_id (current_path_run_id sn t)
                w)
              o)
          ≡ some (written sn path_id w t o)) [ none ↦ refl | some p ↦ refl ]

apart :
    (sn k : Bytes) (path_id j : ℤ) (serial : Bytes) (i : ℤ)
    → (sn ≢ k) ⊎ (path_id ≢ j)
    → (text_eq serial sn && i =ℤ path_id) ≡ true
    → (text_eq serial k && i =ℤ j) ≡ false
apart sn k path_id j serial i n h =
    ground (arith, text_iff serial sn, text_iff serial k, =ℤ_iff i path_id, =ℤ_iff i j)

-- A write of one path leaves what is loaded of every other path, of the device or of another.
pub load-upsert_clean_path_other :
    (sn k : Bytes) (path_id j : ℤ) (w : PathWrite) (t : Paths)
    → (sn ≢ k) ⊎ (path_id ≢ j)
    → load_clean_path k j (upsert_clean_path sn path_id w t) ≡ load_clean_path k j t
unfolding load_clean_path upsert_clean_path rewrite fresh_path
load-upsert_clean_path_other sn k path_id j w t n =
    find-upsert_other (is_path sn path_id) (rewrite w) (is_path k j)
      (λ r h. apart sn k path_id j r.sn r.path_id n h)
      (λ r h. apart sn k path_id j r.sn r.path_id n h)
      (fresh_path (suc (max_id (λ p. p.id) t.paths)) sn path_id (current_path_run_id sn t) w)
      (apart sn k path_id j sn path_id n (same_path sn path_id)) t.paths
