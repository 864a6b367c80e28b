-- ===== src/Tests/Dispatch.antt =====
-- A path of one point that arrives behind a status: src/proto/dispatch.rs at concrete inputs.
use noobscenic.Prelude.{
  ℕ, suc, zero, ◌-◌, ◌<◌, pos, Bytes, true, false, List, [], ◌∷◌, Option, none, some, ◌≡◌, inl, inr,
  refl, arith, codes, ◌>>=◌, leb, if◌then◌else◌, get_elem?, is_some, find_first, text_eq,
}
use noobscenic.Json
use noobscenic.Json.{Value, obj, arr, int, cons, nil, field, end, find}
use noobscenic.Proto.Incoming.{Incoming}
use noobscenic.CleanPath
use noobscenic.CleanPath.{Assembly, Chunk, chunk_at}
use noobscenic.Db.Paths.{is_docked, load_clean_path}
use noobscenic.Proto.Dispatch.{Libraries, Store}
use noobscenic.Proto.Dispatch.PathRows.{
  Timed, dispatch_all, chunks, brings, docks, stored, dispatch_all_reassembles,
}

-- Points as a list of numbers: 0 for none, 1 and the coordinates for a point.
abbrev write_points : Assembly (ℕ × ℕ) → Bytes
write_points [] = []
write_points (none ∷ a) = 0 ∷ write_points a
write_points (some p ∷ a) = 1 ∷ p.0 ∷ p.1 ∷ write_points a

abbrev read_points : Bytes → Option (Assembly (ℕ × ℕ))
read_points [] = some []
read_points (zero ∷ b) = read_points b >>= λ a. some (none ∷ a)
read_points (suc n ∷ x ∷ y ∷ b) = read_points b >>= λ a. some (some (x, y) ∷ a)
read_points _ = none

reads_back : (a : Assembly (ℕ × ℕ)) → read_points (write_points a) ≡ some a
reads_back [] = refl
reads_back (none ∷ a) = rw (reads_back a) refl
reads_back (some p ∷ a) = rw (reads_back a) refl

abbrev number : Value → Option ℕ
number (int (pos n)) = some n
number _ = none

abbrev libraries : Libraries ℕ
libraries = record {
  as_f64 = number;
  to_string = λ v. none;
  areas_to_string = λ vs. none;
  points_to_string = write_points;
  points_from_str = read_points;
  upload_from_value = λ v. none;
  decode64 = λ b. some b;
}

abbrev message : ℕ → Value → Incoming
message info_type payload = record {
  sn = codes "A";
  channel = codes "b";
  endpoint = none;
  trace_ref = none;
  info_type = some (pos info_type);
  payload = payload;
  event = none;
  task_id = none;
  device_ts = none;
  user_id = none;
}

abbrev chunk_data : Value
chunk_data = obj (
    field (codes "pathID") (int (pos 7)) (
      field (codes "posArray") (arr (cons (arr (cons (int (pos 1)) (cons (int (pos 2)) nil))) nil))
        (field (codes "totalPoints") (int (pos 1)) end)))

abbrev arrivals : List Timed
arrivals =
    record {
      message = message 20001 (obj (field (codes "mode") (Json.str (codes "sweep")) end));
      now = pos 1;
    }
    ∷ record { message = message 21011 chunk_data; now = pos 2 }
    ∷ []

abbrev no_rows : Store ℕ
no_rows = record {
  events = [];
  paths = record { states = []; paths = [] };
  areas = [];
  goods = [];
  device_info = [];
  maps = [];
}

abbrev point_chunk : Chunk (ℕ × ℕ)
point_chunk = record {
  path_id = pos 7;
  start_pos = 0;
  total_points = 1;
  user_id = none;
  points = (1, 2) ∷ [];
}

one_chunk : chunks false libraries (codes "A") (pos 7) arrivals ≡ point_chunk ∷ []
unfolding chunks brings text_eq find Json.get Json.as_i64 Json.as_array Json.as_str CleanPath.parse
one_chunk = refl

no_docking :
    docks false libraries
      (codes "A")
      (pos 7)
      (message 20001 (obj (field (codes "mode") (Json.str (codes "sweep")) end)))
    ≡ false
unfolding docks text_eq find Json.get Json.as_str is_docked
no_docking = refl

matches : (i : ℕ) (p : ℕ × ℕ) → chunk_at point_chunk i ≡ some p → get_elem? ((1, 2) ∷ []) i ≡ some p
unfolding chunk_at
matches zero p e = e
matches (suc i) p e = absurd (nothing i e)
  where
    clash : ◌≡◌ {A = Option (ℕ × ℕ)} none (some p) → ⊥
    clash e = cc

    nothing :
        (i : ℕ) → (if leb 0 (suc i) then get_elem? ((1, 2) ∷ []) (suc i - 0) else none) ≡ some p → ⊥
    nothing i e =
        let here : leb 0 (suc i) ≡ true = ground arith in
        let same : suc i - 0 ≡ suc i = omega arith in clash (rw (here, if◌then◌else◌, same) at e)

covered : (i : ℕ) → i < 1 → is_some (chunk_at point_chunk i) ≡ true
unfolding chunk_at
covered zero l = refl
covered (suc i) l = absurd (omega arith)

dispatch_all_reassembles_example :
    stored false libraries
      (codes "A")
      (pos 7)
      (dispatch_all false libraries (codes "A") (pos 7) arrivals no_rows)
    ≡ some (1, 2) ∷ []
dispatch_all_reassembles_example =
    dispatch_all_reassembles false libraries (codes "A") (pos 7) ((1, 2) ∷ []) (λ a h. reads_back a)
      arrivals no_rows (unfold load_clean_path find_first in refl)
      (inr (rw no_docking (ground arith)), (inr refl, tt))
      (rw one_chunk (record { points_match = matches; claims = omega arith }, tt))
      (λ i l. rw one_chunk (inl (covered i l)))
