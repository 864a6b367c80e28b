-- ===== src/Proto/Dispatch/PathRows.antt =====
-- The stored clean paths behind a sequence of payloads, src/proto/dispatch.rs.
use noobscenic.Prelude.{
  ℕ, ℤ, ◌=ℤ◌, =ℤ_iff, Bytes, Bool, true, false, List, [], ◌∷◌, Option, none, some, codes, ◌>>=◌,
  if◌then◌else◌, length, text_eq, text_iff, ◌&&◌, not, ◌≡◌, ◌≢◌, ◌⊎◌, inl, inr, refl, sym, subst,
  ap, ◌∙◌, arith, Bool-cases, Option-cases, Result-cases, All, map, keep, find_first, ◌<◌,
}
use noobscenic.Json
use noobscenic.Json.{Value}
use noobscenic.Proto.InfoType
use noobscenic.Proto.Incoming.{Incoming}
use noobscenic.CleanPath
use noobscenic.CleanPath.{Assembly, Chunk}
use noobscenic.CleanPath.Storage.{from_json, to_json}
use noobscenic.CleanPath.Reassembly.{
  merge_all, merge_all_reassembles, IsChunkOf, Covered, Holds, nil-Holds, merge-Holds,
}
use noobscenic.Map
use noobscenic.Db.Paths.{
  Paths, PathWrite, CleanPath, is_docked, observe_path_mode, load_clean_path, rewrite, fresh_path,
  is_path, is_older_run, find_state, was_docked,
}
use noobscenic.Db.Rows.Laws.{find-keep}
use noobscenic.Db.Paths.Stored.{written, load-upsert_clean_path, load-upsert_clean_path_other}
use noobscenic.Proto.Dispatch.{
  Libraries, Store, assembly_of, path_write, store_path, store_map, store_zones, store_goods_reply,
  store_info_reply, store_event, observe_status, dispatch,
}

-- A payload and the clock at which it is handled.
pub record Timed : Type 0 where
  pub message : Incoming
  pub now : ℤ

points-written :
    (sn : Bytes) (path_id : ℤ) (w : PathWrite) (t : Paths) (o : Option CleanPath)
    → (written sn path_id w t o).points_json ≡ w.points_json
unfolding written rewrite fresh_path
points-written sn path_id w t none = refl
points-written sn path_id w t (some p) = refl

module _ {F : Type 0} (history : Bool) (l : Libraries F) (sn : Bytes) (path_id : ℤ) where
  open l use {as_f64, points_to_string, points_from_str}

  abbrev pub dispatch_all : List Timed → Store F → Store F
  dispatch_all [] s = s
  dispatch_all (m ∷ ms) s = dispatch_all ms (dispatch history l m.now m.message s)

  abbrev pub chunk_of : Incoming → Chunk (F × F)
  chunk_of m = CleanPath.parse as_f64 m.payload

  -- The payload is a chunk of the path.
  unfoldable pub brings : Incoming → Bool
  brings m =
      InfoType.is InfoType.clean_path m.info_type
      && (text_eq m.sn sn && (chunk_of m).path_id =ℤ path_id)

  unfoldable pub chunks : List Timed → List (Chunk (F × F))
  chunks [] = []
  chunks (m ∷ ms) =
      let rest = chunks ms in if brings m.message then chunk_of m.message ∷ rest else rest

  -- The mode that a status of the device reports is a docked one.
  unfoldable pub docks : Incoming → Bool
  docks m = elim (Json.get (codes "mode") m.payload >>= Json.as_str) [
    | none ↦ false
    | some mode ↦ is_docked mode
  ]

  -- What is stored of the path.
  abbrev pub stored : Store F → Assembly (F × F)
  stored s = assembly_of l (load_clean_path sn path_id s.paths)

  module _ (ps : List (F × F))
      (reads_back : (a : Assembly (F × F))
        → Holds ps a
        → points_from_str (points_to_string a) ≡ some a) where
    stored-store_path :
        (now : ℤ) (m : Incoming) (s : Store F)
        → m.sn ≡ sn
        → (chunk_of m).path_id ≡ path_id
        → Holds ps (stored s)
        → IsChunkOf ps (chunk_of m)
        → stored (store_path history l now m s) ≡ (CleanPath.merge (stored s) (chunk_of m)).0
    unfolding store_path assembly_of path_write from_json to_json
    stored-store_path now m s e f holds part =
        let c = chunk_of m in
        let merged =
          (CleanPath.merge (assembly_of l (load_clean_path m.sn c.path_id s.paths)) c).0 in
        let w = path_write history l now m c merged in
        rw (← e, ← f)
          (ap (assembly_of l) (load-upsert_clean_path m.sn c.path_id w s.paths)
            ∙ rw
                (
                  points-written m.sn c.path_id w s.paths (load_clean_path m.sn c.path_id s.paths),
                  reads_back merged (merge-Holds ps _ c (rw (← e, ← f) at holds) part),
                )
                refl)

    stored-store_path_other :
        (now : ℤ) (m : Incoming) (s : Store F)
        → (m.sn ≢ sn) ⊎ ((chunk_of m).path_id ≢ path_id)
        → stored (store_path history l now m s) ≡ stored s
    unfolding store_path
    stored-store_path_other now m s n =
        ap (assembly_of l)
          (load-upsert_clean_path_other m.sn sn (chunk_of m).path_id path_id _ s.paths n)

    -- Where `history` is off, a docked status of the device may remove its older paths.
    abbrev pub Keeps : Timed → Type 0
    Keeps m =
        (history ≡ true)
        ⊎ ((InfoType.is InfoType.status m.message.info_type
              && (text_eq m.message.sn sn && docks m.message))
            ≡ false)

    find-spared :
        (b : Bool) (k : Bytes) (run : ℕ) (ps : List CleanPath)
        → (b ≡ false) ⊎ (text_eq k sn ≡ false)
        → find_first
            (is_path sn path_id)
            (if b then keep (λ p. not (is_older_run k run p)) ps else ps)
          ≡ find_first (is_path sn path_id) ps
    find-spared b k run ps (inl e) = rw (e, if◌then◌else◌) refl
    find-spared b k run ps (inr n) = elim (Bool-cases b) [
      | inl e ↦
          rw (e, if◌then◌else◌) (find-keep _ (is_path sn path_id) (λ p h. spare p.sn _ _ h) ps)
      | inr e ↦ rw (e, if◌then◌else◌) refl
    ]
      where
        spare :
            (j : Bytes) (c d : Bool) → (text_eq j sn && c) ≡ true → not (text_eq j k && d) ≡ true
        spare j c d h = ground (arith, text_iff j sn, text_iff j k, text_iff k sn)

    no_pruning :
        (entered own run : Bool)
        → (history ≡ true) ⊎ ((own && entered) ≡ false)
        → (was : Bool) → ((not history && (entered && not was) && run) ≡ false) ⊎ (own ≡ false)
    no_pruning entered own run h was = ground arith

    load-observe_path_mode :
        (k mode : Bytes) (now : ℤ) (t : Paths)
        → (history ≡ true) ⊎ ((text_eq k sn && is_docked mode) ≡ false)
        → load_clean_path sn path_id (observe_path_mode history k mode now t).0
          ≡ load_clean_path sn path_id t
    unfolding observe_path_mode load_clean_path
    load-observe_path_mode k mode now t h =
        let before = find_state k t.states in
        find-spared _ k _ t.paths
          (no_pruning (is_docked mode) (text_eq k sn) _ h (was_docked before))

    stored-observe_status :
        (now : ℤ) (m : Incoming) (s : Store F)
        → (history ≡ true) ⊎ ((text_eq m.sn sn && docks m) ≡ false)
        → stored (observe_status history l now m s) ≡ stored s
    unfolding observe_status docks
    stored-observe_status now m s h =
        elim (Option-cases (Json.get (codes "mode") m.payload >>= Json.as_str)) [
          | inl none_there ↦ rw (observe_status, none_there) refl
          | inr (mode, e) ↦
              rw (observe_status, e)
                (ap (assembly_of l)
                  (load-observe_path_mode m.sn mode now s.paths (rw (docks, e) at h)))
        ]

    stored-store_map :
        (now : ℤ) (m : Incoming) (s : Store F) → stored (store_map history l now m s) ≡ stored s
    unfolding store_map store_event
    stored-store_map now m s = elim (Result-cases (Map.parse l.upload_from_value m.payload)) [
      | inl (u, e) ↦ rw (store_map, e) refl
      | inr (r, e) ↦ rw (store_map, e) refl
    ]

    exclusive :
        (o : Option ℤ) (b : Bool)
        → InfoType.is InfoType.grid_map o ≡ true
        → (InfoType.is InfoType.clean_path o && b) ≡ false
    exclusive none b h = refl
    exclusive (some o) b h = ground arith

    chunk_ids :
        (k : Bytes) (p : ℤ) → (text_eq k sn && p =ℤ path_id) ≡ true → (k ≡ sn) × (p ≡ path_id)
    chunk_ids k p h = ground (arith, text_iff k sn, =ℤ_iff p path_id)

    not_ids :
        (k : Bytes) (p : ℤ) → (text_eq k sn && p =ℤ path_id) ≡ false → (k ≢ sn) ⊎ (p ≢ path_id)
    not_ids k p h = elim (Bool-cases (text_eq k sn)) [
      | inl e ↦ inr (λ q. absurd (ground (arith, =ℤ_iff p path_id)))
      | inr e ↦ inl (λ q. absurd (ground (arith, text_iff k sn)))
    ]

    choose :
        (a b c d : Bool) (w x y z v : Store F) (t : Assembly (F × F))
        → stored w ≡ t
        → stored x ≡ t
        → stored y ≡ t
        → (d ≡ true → stored z ≡ t)
        → stored v ≡ t
        → stored (if a then w else if b then x else if c then y else if d then z else v) ≡ t
    choose true b c d w x y z v t p q r h u = p
    choose false true c d w x y z v t p q r h u = q
    choose false false true d w x y z v t p q r h u = r
    choose false false false true w x y z v t p q r h u = h refl
    choose false false false false w x y z v t p q r h u = u

    stored-dispatch :
        (m : Timed) (s : Store F)
        → Keeps m
        → Holds ps (stored s)
        → (brings m.message ≡ true → IsChunkOf ps (chunk_of m.message))
        → stored (dispatch history l m.now m.message s) ≡ (
            if brings m.message
            then (CleanPath.merge (stored s) (chunk_of m.message)).0
            else stored s)
    unfolding dispatch brings store_event store_zones store_goods_reply store_info_reply
    stored-dispatch t s k holds part =
        let m = t.message in
        let o = m.info_type in
        elim (Bool-cases (InfoType.is InfoType.grid_map o)) [
          | inl e ↦ rw (e, exclusive o _ e, if◌then◌else◌) (stored-store_map t.now m s)
          | inr e ↦ elim (Bool-cases (InfoType.is InfoType.clean_path o)) [
            | inl f ↦ elim (Bool-cases (text_eq m.sn sn && (chunk_of m).path_id =ℤ path_id)) [
              | inl g ↦
                  let ids = chunk_ids m.sn (chunk_of m).path_id g in
                  rw (e, f, g, if◌then◌else◌)
                    (stored-store_path t.now m s ids.0 ids.1 holds (part (rw (f, g) refl)))
              | inr g ↦
                  rw (e, f, g, if◌then◌else◌)
                    (stored-store_path_other t.now m s (not_ids m.sn (chunk_of m).path_id g))
            ]
            | inr f ↦
                rw (e, f, if◌then◌else◌)
                  (choose (InfoType.is InfoType.zones_read o) (InfoType.is InfoType.goods_read o)
                    (InfoType.is InfoType.network_info o) (InfoType.is InfoType.status o)
                    (store_zones history l t.now m s) (store_goods_reply history l t.now m s)
                    (store_info_reply history l t.now m s)
                    (store_event history l t.now m (observe_status history l t.now m s))
                    (store_event history l t.now m s) (stored s) refl refl refl
                    (λ st. stored-observe_status t.now m s (rw st at k)) refl)
          ]
        ]

    kept-dispatch :
        (m : Timed) (ms : List Timed)
        → All (IsChunkOf ps) (chunks (m ∷ ms))
        → (brings m.message ≡ true → IsChunkOf ps (chunk_of m.message))
          × All (IsChunkOf ps) (chunks ms)
    unfolding chunks
    kept-dispatch m ms all = elim (Bool-cases (brings m.message)) [
      | inl e ↦ let q = rw (e, if◌then◌else◌) at all in (λ b. q.0, q.1)
      | inr e ↦ (λ b. absurd (cc), rw (e, if◌then◌else◌) at all)
    ]

    -- The chunks of a path that arrive, in whatever order and with whatever other payloads between
    -- them, are merged in the order of their arrival into what is stored, as long as each assembly of
    -- the path's points is read back as it was written and, without `history`, the device reports no
    -- docking in between.
    stored-dispatch_all :
        (ms : List Timed) (s : Store F)
        → All Keeps ms
        → Holds ps (stored s)
        → All (IsChunkOf ps) (chunks ms)
        → stored (dispatch_all ms s) ≡ merge_all (stored s) (chunks ms)
    unfolding chunks merge_all
    stored-dispatch_all [] s h holds all = refl
    stored-dispatch_all (m ∷ ms) s h holds all =
        let (part, rest) = kept-dispatch m ms all in
        let here = stored-dispatch m s h.0 holds part in
        elim (Bool-cases (brings m.message)) [
          | inl e ↦
              let now_stored = here ∙ rw (e, if◌then◌else◌) refl in
              let after = subst (Holds ps) (sym now_stored) (merge-Holds ps _ _ holds (part e)) in
              stored-dispatch_all ms (dispatch history l m.now m.message s) h.1 after rest
              ∙ rw (now_stored, e, if◌then◌else◌) refl
          | inr e ↦
              let now_stored = here ∙ rw (e, if◌then◌else◌) refl in
              let after = subst (Holds ps) (sym now_stored) holds in
              stored-dispatch_all ms (dispatch history l m.now m.message s) h.1 after rest
              ∙ rw (now_stored, e, if◌then◌else◌) refl
        ]

    -- A path that was not stored yet, whose chunks between them bring each of its points, no
    -- others, and claim no greater length, is stored whole, whatever the order of the chunks and
    -- the other payloads between them, under two conditions. The JSON library reads back what it
    -- wrote of this path's points, with gaps or without, as it does for whole numbers; it need not
    -- for other coordinates, of which it rounds some when it reads, or writes null. And, without
    -- `history`, no status of the device reports a docked mode in between, which may delete the
    -- path.
    pub dispatch_all_reassembles :
        (ms : List Timed) (s : Store F)
        → load_clean_path sn path_id s.paths ≡ none
        → All Keeps ms
        → All (IsChunkOf ps) (chunks ms)
        → ((i : ℕ) → i < length ps → Covered (chunks ms) i)
        → stored (dispatch_all ms s) ≡ map some ps
    dispatch_all_reassembles ms s fresh h all covered =
        let none_yet : stored s ≡ [] = rw fresh (unfold assembly_of in refl) in
        stored-dispatch_all ms s h (subst (Holds ps) (sym none_yet) (nil-Holds ps)) all
        ∙ rw none_yet (merge_all_reassembles ps (chunks ms) all covered).0
