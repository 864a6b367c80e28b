-- ===== src/Db/Rows.antt =====
-- The SQL statements that the tables of src/db/queries.rs share, over rows of any type.
pub mod Laws
use noobscenic.Prelude.{
  ℕ, suc, max, Bool, true, false, List, [], ◌∷◌, ◌++◌, Option, none, some, if◌then◌else◌,
}

module _ {A : Type 0} where
  -- `INSERT … ON CONFLICT(…) DO UPDATE`: the row that is there is changed, or a new row follows
  -- the others.
  unfoldable pub upsert : (A → Bool) → (A → A) → A → List A → List A
  upsert p change fresh [] = fresh ∷ []
  upsert p change fresh (r ∷ t) =
      let rest = upsert p change fresh t in if p r then change r ∷ t else r ∷ rest

  -- `UPDATE … WHERE …`
  unfoldable pub update_where : (A → Bool) → (A → A) → List A → List A
  update_where p change [] = []
  update_where p change (r ∷ t) =
      let rest = update_where p change t in (if p r then change r else r) ∷ rest

  -- `ORDER BY … DESC LIMIT 1`: `is_before a b` says that `b` comes before `a` in that order.
  unfoldable pub newest_by : (A → A → Bool) → List A → Option A
  newest_by is_before [] = none
  newest_by is_before (r ∷ t) =
      let rest = newest_by is_before t in
      elim rest [ none ↦ some r | some best ↦ if is_before r best then some best else some r ]

  abbrev pub max_id : (A → ℕ) → List A → ℕ
  max_id id [] = 0
  max_id id (r ∷ t) = max (id r) (max_id id t)
