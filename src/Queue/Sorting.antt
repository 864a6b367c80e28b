-- ===== src/Queue/Sorting.antt =====
-- The order in which src/commands.rs pushes what it claimed.
use native.Mathlib.Omega.{arith}
use noobscenic.Prelude.{
  ℕ, suc, ◌≤◌, leb, List, [], ◌∷◌, ◌⊎◌, inl, inr, if◌then◌else◌, Bool-cases, ◌≡◌, refl, ap, In,
  length,
}
use noobscenic.Db.Commands.{QueuedCommand}
use noobscenic.Queue.{insert_by_id, sort_by_id}

-- Ids from `lo` on that never go down.
abbrev pub Ordered : ℕ → List QueuedCommand → Type 0
Ordered lo [] = Unit
Ordered lo (c ∷ cs) = (lo ≤ c.id) × Ordered c.id cs

insert_by_id-Ordered :
    (lo : ℕ) (c : QueuedCommand) (ds : List QueuedCommand)
    → lo ≤ c.id
    → Ordered lo ds
    → Ordered lo (insert_by_id c ds)
unfolding insert_by_id
insert_by_id-Ordered lo c [] l h = (l, tt)
insert_by_id-Ordered lo c (d ∷ ds) l h =
    let go = insert_by_id-Ordered d.id c ds in
    elim (Bool-cases (leb c.id d.id)) [
      | inl e ↦ rw (e, if◌then◌else◌) (l, (ground arith, h.1))
      | inr e ↦ rw (e, if◌then◌else◌) (h.0, go (ground arith) h.1)
    ]

length-insert_by_id :
    (c : QueuedCommand) (ds : List QueuedCommand) → length (insert_by_id c ds) ≡ suc (length ds)
unfolding insert_by_id
length-insert_by_id c [] = refl
length-insert_by_id c (d ∷ ds) =
    let rest = length-insert_by_id c ds in
    elim (Bool-cases (leb c.id d.id)) [
      | inl e ↦ rw (e, if◌then◌else◌) refl
      | inr e ↦ rw (e, if◌then◌else◌) (ap suc rest)
    ]

In-insert_by_id :
    (a c : QueuedCommand) (ds : List QueuedCommand) → (c ≡ a) ⊎ In a ds → In a (insert_by_id c ds)
unfolding insert_by_id
In-insert_by_id a c [] m = m
In-insert_by_id a c (d ∷ ds) m =
    let go = In-insert_by_id a c ds in
    elim (Bool-cases (leb c.id d.id)) [
      | inl e ↦ rw (e, if◌then◌else◌) m
      | inr e ↦ rw (e, if◌then◌else◌) (behind go m)
    ]
  where
    behind :
        ((c ≡ a) ⊎ In a ds → In a (insert_by_id c ds))
        → (c ≡ a) ⊎ ((d ≡ a) ⊎ In a ds)
        → (d ≡ a) ⊎ In a (insert_by_id c ds)
    behind go (inl e) = inr (go (inl e))
    behind go (inr (inl e)) = inl e
    behind go (inr (inr m)) = inr (go (inr m))

sort_by_id-Ordered : (cs : List QueuedCommand) → Ordered 0 (sort_by_id cs)
unfolding sort_by_id
sort_by_id-Ordered [] = tt
sort_by_id-Ordered (c ∷ cs) = insert_by_id-Ordered 0 c _ (omega arith) (sort_by_id-Ordered cs)

length-sort_by_id : (cs : List QueuedCommand) → length (sort_by_id cs) ≡ length cs
unfolding sort_by_id
length-sort_by_id [] = refl
length-sort_by_id (c ∷ cs) =
    omega (arith, length-insert_by_id c (sort_by_id cs), length-sort_by_id cs)

In-sort_by_id : (a : QueuedCommand) (cs : List QueuedCommand) → In a cs → In a (sort_by_id cs)
unfolding sort_by_id
In-sort_by_id a [] m = m
In-sort_by_id a (c ∷ cs) (inl e) = In-insert_by_id a c _ (inl e)
In-sort_by_id a (c ∷ cs) (inr m) = In-insert_by_id a c _ (inr (In-sort_by_id a cs m))

-- Claimed commands are sorted by ascending id, in whatever order they came back: the sorted list
-- has each of them, and as many.
pub sort_by_id_lem :
    (cs : List QueuedCommand)
    → Ordered 0 (sort_by_id cs)
      × ((c : QueuedCommand) → In c cs → In c (sort_by_id cs))
      × (length (sort_by_id cs) ≡ length cs)
sort_by_id_lem cs = (sort_by_id-Ordered cs, λ c. In-sort_by_id c cs, length-sort_by_id cs)
