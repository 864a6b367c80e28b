-- ===== src/Db/Rows/Laws.antt =====
-- What is found behind an upsert or an update of the tables of src/db/queries.rs.
use native.Mathlib.Omega.{arith}
use noobscenic.Prelude.{
  ℕ, ◌≤◌, Bool, true, false, List, [], ◌∷◌, ◌++◌, Option, none, some, if◌then◌else◌, Bool-cases,
  find_first, ◌≡◌, refl, ap, subst, inl, inr, keep, In, length, max, suc, ◌&&◌,
}
use noobscenic.Db.Rows.{upsert, update_where, newest_by, max_id}

module _ {A : Type 0} where
  -- The row that an upsert leaves, from the one before.
  unfoldable pub upserted : (A → A) → A → Option A → A
  upserted change fresh none = fresh
  upserted change fresh (some r) = change r

  -- The row that an update leaves.
  unfoldable pub updated : (A → A) → Option A → Option A
  updated change none = none
  updated change (some r) = some (change r)

  module _ (p : A → Bool) (change : A → A) where
    pub find-upsert :
        (fresh : A)
        → ((r : A) → p (change r) ≡ p r)
        → p fresh ≡ true
        → (t : List A)
        → find_first p (upsert p change fresh t) ≡ some (upserted change fresh (find_first p t))
    unfolding upsert find_first upserted
    find-upsert fresh same new [] = rw (new, if◌then◌else◌) refl
    find-upsert fresh same new (r ∷ t) =
        let rest = find-upsert fresh same new t in
        elim (Bool-cases (p r)) [
          | inl e ↦ rw (e, if◌then◌else◌, same r, e) refl
          | inr e ↦ rw (e, if◌then◌else◌, e) rest
        ]

    pub find-update :
        ((r : A) → p (change r) ≡ p r)
        → (t : List A) → find_first p (update_where p change t) ≡ updated change (find_first p t)
    unfolding update_where find_first updated
    find-update same [] = refl
    find-update same (r ∷ t) =
        let rest = find-update same t in
        elim (Bool-cases (p r)) [
          | inl e ↦ rw (e, if◌then◌else◌, same r, e) refl
          | inr e ↦ rw (e, if◌then◌else◌, e) rest
        ]

    module _ (q : A → Bool) (apart : (r : A) → p r ≡ true → q r ≡ false)
        (hidden : (r : A) → p r ≡ true → q (change r) ≡ false) where
      pub find-upsert_other :
          (fresh : A)
          → q fresh ≡ false
          → (t : List A) → find_first q (upsert p change fresh t) ≡ find_first q t
      unfolding upsert find_first
      find-upsert_other fresh new [] = rw (new, if◌then◌else◌) refl
      find-upsert_other fresh new (r ∷ t) =
          let rest = find-upsert_other fresh new t in
          elim (Bool-cases (p r)) [
            | inl e ↦ rw (e, if◌then◌else◌, hidden r e, apart r e) refl
            | inr e ↦ rw (e, if◌then◌else◌) (ap (λ o. if q r then some r else o) rest)
          ]

      pub find-update_other : (t : List A) → find_first q (update_where p change t) ≡ find_first q t
      unfolding update_where find_first
      find-update_other [] = refl
      find-update_other (r ∷ t) =
          let rest = find-update_other t in
          elim (Bool-cases (p r)) [
            | inl e ↦ rw (e, if◌then◌else◌, hidden r e, apart r e, if◌then◌else◌) rest
            | inr e ↦ rw (e, if◌then◌else◌) (ap (λ o. if q r then some r else o) rest)
          ]

  pub keep-append : (p : A → Bool) (t u : List A) → keep p (t ++ u) ≡ keep p t ++ keep p u
  unfolding keep
  keep-append p [] u = refl
  keep-append p (r ∷ t) u =
      let rest = keep-append p t u in
      elim (Bool-cases (p r)) [
        | inl e ↦ rw (e, if◌then◌else◌) (ap (λ l. r ∷ l) rest)
        | inr e ↦ rw (e, if◌then◌else◌) rest
      ]

  pub keep-one : (p : A → Bool) (r : A) → p r ≡ true → keep p (r ∷ []) ≡ r ∷ []
  unfolding keep
  keep-one p r e = rw (e, if◌then◌else◌) refl

  pub keep-none : (p : A → Bool) (r : A) → p r ≡ false → keep p (r ∷ []) ≡ []
  unfolding keep
  keep-none p r e = rw (e, if◌then◌else◌) refl

  -- Two tests, one after the other, where the first drops nothing that the second takes.
  pub keep-keep :
      (p q : A → Bool)
      → ((r : A) → q r ≡ true → p r ≡ true)
      → (t : List A) → keep q (keep p t) ≡ keep q t
  unfolding keep
  keep-keep p q h [] = refl
  keep-keep p q h (r ∷ t) =
      let rest = keep-keep p q h t in
      elim (Bool-cases (q r)) [
        | inl e ↦ rw (h r e, if◌then◌else◌, e, if◌then◌else◌) (ap (λ l. r ∷ l) rest)
        | inr e ↦ elim (Bool-cases (p r)) [
          | inl k ↦ rw (k, if◌then◌else◌, e, if◌then◌else◌) rest
          | inr k ↦ rw (k, if◌then◌else◌, e, if◌then◌else◌) rest
        ]
      ]

  -- Where the first drops all that the second takes.
  pub keep-drop :
      (p q : A → Bool) (t : List A)
      → ((r : A) → In r t → q r ≡ true → p r ≡ false)
      → keep q (keep p t) ≡ []
  unfolding keep
  keep-drop p q [] h = refl
  keep-drop p q (r ∷ t) h =
      let rest = keep-drop p q t (λ s m. h s (inr m)) in
      elim (Bool-cases (q r)) [
        | inl e ↦ rw (h r (inl refl) e, if◌then◌else◌) rest
        | inr e ↦ elim (Bool-cases (p r)) [
          | inl k ↦ rw (k, if◌then◌else◌, e, if◌then◌else◌) rest
          | inr k ↦ rw (k, if◌then◌else◌) rest
        ]
      ]

  pub newest_by-last :
      (is_before : A → A → Bool) (t : List A) (r : A)
      → ((s : A) → In s t → is_before s r ≡ true)
      → newest_by is_before (t ++ r ∷ []) ≡ some r
  unfolding newest_by
  newest_by-last is_before [] r h = refl
  newest_by-last is_before (s ∷ t) r h =
      rw (newest_by-last is_before t r (λ x m. h x (inr m)), h s (inl refl), if◌then◌else◌) refl

  pub In-max_id : (id : A → ℕ) (s : A) (t : List A) → In s t → id s ≤ max_id id t
  In-max_id id s [] m = absurd m
  In-max_id id s (x ∷ t) (inl e) = let q = ap id e in omega arith
  In-max_id id s (x ∷ t) (inr m) = let q = In-max_id id s t m in omega arith

  -- What holds of every row, and of the new one, and stays when a row is changed, holds behind an
  -- upsert.
  pub In-upsert :
      (P : A → Type 0) (p : A → Bool) (change : A → A) (fresh : A)
      → ((r : A) → P r → P (change r))
      → P fresh
      → (t : List A) → ((r : A) → In r t → P r)
      → (r : A) → In r (upsert p change fresh t)
      → P r
  unfolding upsert
  In-upsert P p change fresh c new [] h r (inl e) = subst P e new
  In-upsert P p change fresh c new [] h r (inr m) = absurd m
  In-upsert P p change fresh c new (x ∷ t) h r m =
      let rest = In-upsert P p change fresh c new t (λ s k. h s (inr k)) r in
      elim (Bool-cases (p x)) [
        | inl e ↦ elim (rw (e, if◌then◌else◌) at m) [
          | inl k ↦ subst P k (c x (h x (inl refl)))
          | inr k ↦ h r (inr k)
        ]
        | inr e ↦ elim (rw (e, if◌then◌else◌) at m) [
          | inl k ↦ subst P k (h x (inl refl))
          | inr k ↦ rest k
        ]
      ]

  -- An upsert adds a row for the key only where there is none.
  pub length-keep-upsert :
      (p : A → Bool) (change : A → A) (fresh : A)
      → ((r : A) → p (change r) ≡ p r)
      → p fresh ≡ true
      → (t : List A) → length (keep p (upsert p change fresh t)) ≡ max 1 (length (keep p t))
  unfolding upsert keep
  length-keep-upsert p change fresh same new [] = rw (new, if◌then◌else◌) refl
  length-keep-upsert p change fresh same new (r ∷ t) =
      let rest = length-keep-upsert p change fresh same new t in
      elim (Bool-cases (p r)) [
        | inl e ↦ rw (e, if◌then◌else◌, same r, e, if◌then◌else◌) (omega arith)
        | inr e ↦ rw (e, if◌then◌else◌, e, if◌then◌else◌) rest
      ]

  find-none :
      (p q : A → Bool) (t : List A) → length (keep p t) ≤ 0 → find_first (λ r. p r && q r) t ≡ none
  unfolding keep find_first
  find-none p q [] h = refl
  find-none p q (r ∷ t) h =
      let rest = find-none p q t in
      elim (Bool-cases (p r)) [
        | inl e ↦ absurd (positive (rw (e, if◌then◌else◌) at h))
        | inr e ↦ rw (e, if◌then◌else◌) (rest (rw (e, if◌then◌else◌) at h))
      ]
    where
      positive : suc (length (keep p t)) ≤ 0 → ⊥
      positive h = omega arith

  -- Where at most one row has the key, a further test is one on that row.
  pub find-and :
      (p q : A → Bool) (t : List A)
      → length (keep p t) ≤ 1
      → find_first (λ r. p r && q r) t
        ≡ elim (find_first p t) [ none ↦ none | some r ↦ if q r then some r else none ]
  unfolding keep find_first
  find-and p q [] h = refl
  find-and p q (r ∷ t) h =
      let rest = find-and p q t in
      elim (Bool-cases (p r)) [
        | inl e ↦
            let k = rw (e, if◌then◌else◌) at h in
            rw (e, if◌then◌else◌)
              (elim (Bool-cases (q r)) [
                | inl f ↦ rw (f, if◌then◌else◌) refl
                | inr f ↦ rw (f, if◌then◌else◌) (find-none p q t (omega (arith, k)))
              ])
        | inr e ↦ rw (e, if◌then◌else◌) (rest (rw (e, if◌then◌else◌) at h))
      ]

  -- A deletion that spares the rows that a query looks at leaves its result.
  pub find-keep :
      (p q : A → Bool)
      → ((r : A) → q r ≡ true → p r ≡ true)
      → (t : List A) → find_first q (keep p t) ≡ find_first q t
  unfolding keep find_first
  find-keep p q h [] = refl
  find-keep p q h (r ∷ t) =
      let rest = find-keep p q h t in
      elim (Bool-cases (q r)) [
        | inl e ↦ rw (h r e, if◌then◌else◌, e, if◌then◌else◌) refl
        | inr e ↦ elim (Bool-cases (p r)) [
          | inl k ↦ rw (k, if◌then◌else◌, e, if◌then◌else◌) rest
          | inr k ↦ rw (k, if◌then◌else◌, e, if◌then◌else◌) rest
        ]
      ]
