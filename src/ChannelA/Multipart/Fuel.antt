-- ===== src/ChannelA/Multipart/Fuel.antt =====
-- The loop of src/channel_a/multipart.rs ends: each round gets further in the body.
use noobscenic.Prelude.{
  ℕ, zero, suc, ◌+◌, ◌-◌, ◌≤◌, ◌<◌, Bytes, Bool, true, false, List, [], ◌∷◌, ◌++◌, Option, none,
  some, codes, ltb, not, ◌||◌, text_eq, starts_with, length, length-drop, take, drop, if◌then◌else◌,
  ◌>>=◌, ◌≡◌, ◌≢◌, ◌==◌, refl, ap, arith, Bool-cases, Option-cases, inl, inr,
}
use noobscenic.ChannelA.Multipart.{
  Texts, Part, Parsed, crlf, find_in, find_from, disposition, part_at, rounds, boundary, parse,
}

some-inj {ℓ} : {A : Type ℓ} {a b : A} → some a ≡ some b → a ≡ b
some-inj {A = A} {a} e = ap (λ o. elim o as (λ x. A) [ none ↦ a | some c ↦ c ]) e

found-le :
    (b : Bool) (o : Option ℕ) (n k : ℕ)
    → ((j : ℕ) → o ≡ some j → j ≤ n)
    → (if b then some 0 else elim o as (λ x. Option ℕ) [ none ↦ none | some at ↦ some (suc at) ])
      ≡ some k
    → k ≤ suc n
found-le true o n k le e = ground (arith, some-inj e)
found-le false none n k le e = absurd cc
found-le false (some at) n k le e = ground (arith, some-inj e, le at refl)

find_in-le : (needle s : Bytes) (k : ℕ) → find_in needle s ≡ some k → k ≤ length s
unfolding find_in
find_in-le needle [] k e = ground arith
find_in-le needle (b ∷ s) k e =
    found-le (starts_with needle (b ∷ s)) (find_in needle s) (length s) k (find_in-le needle s) e

moved-range :
    (b : Bool) (o : Option ℕ) (from n k : ℕ)
    → (b ≡ false → from ≤ n)
    → ((j : ℕ) → o ≡ some j → j ≤ n - from)
    → (if b then none else elim o as (λ x. Option ℕ) [ none ↦ none | some at ↦ some (at + from) ])
      ≡ some k
    → (from ≤ k) × (k ≤ n)
moved-range true o from n k low le e = absurd cc
moved-range false none from n k low le e = absurd cc
moved-range false (some at) from n k low le e = ground (arith, some-inj e, le at refl, low refl)

-- What is found lies between the start of the search and the end of the text.
find_from-range :
    (h n : Bytes) (from k : ℕ) → find_from h n from ≡ some k → (from ≤ k) × (k ≤ length h)
unfolding find_from
find_from-range h n from k e =
    moved-range (ltb (length h) from) (find_in n (drop from h)) from (length h) k
      (λ low. ground arith)
      (λ j found.
        let le = find_in-le n (drop from h) j found in omega (arith, length-drop from h, le))
      e

bind-some {ℓ κ} :
    {A : Type ℓ} {B : Type κ} (o : Option A) (f : A → Option B) (b : B)
    → (o >>= f) ≡ some b
    → (a : A) × (o ≡ some a) × (f a ≡ some b)
bind-some none f b e = absurd cc
bind-some (some a) f b e = (a, refl, e)

past-guard {ℓ} :
    {A : Type ℓ} (b : Bool) (o : Option A) (a : A) → (if b then none else o) ≡ some a → o ≡ some a
past-guard true o a e = absurd cc
past-guard false o a e = e

part_at-next :
    (t : Texts) (delimiter body : Bytes) (cursor : ℕ) (p : Part × (ℕ × Bool))
    → part_at t delimiter body cursor ≡ some p
    → (cursor ≤ p.1.0) × (p.1.0 ≤ length body)
unfolding part_at
part_at-next t delimiter body cursor p e =
    let (header_end, a, e1) = bind-some (find_from body (crlf ++ crlf) cursor) _ p e in
    let headers = take (header_end - cursor) (drop cursor body) in
    let e2 = past-guard (not (t.is_utf8 headers)) _ p e1 in
    let (named, b, e3) = bind-some (disposition t headers) _ p e2 in
    let (next, c, e4) = bind-some (find_from body delimiter (header_end + 4)) _ p e3 in
    let no_break = ltb next 2 || not (text_eq (take 2 (drop (next - 2) body)) crlf) in
    let e5 = ap (λ q. q.1.0) (some-inj (past-guard no_break _ p e4)) in
    let from = find_from-range body (crlf ++ crlf) cursor header_end a in
    let to = find_from-range body delimiter (header_end + 4) next c in ground (arith, from, to, e5)

follow : Option (Part × (ℕ × Bool)) → (Part → ℕ → Parsed) → Parsed
follow o k = elim o [
  | none ↦ Parsed.refused
  | some (part, (next, ordered)) ↦ if ordered then k part next else Parsed.panics
]

-- Two continuations that agree on what is found give the same round.
same_round :
    (closed broken : Bool) (o : Option (Part × (ℕ × Bool))) (x : Parsed) (k k' : Part → ℕ → Parsed)
    → ((part : Part) (next : ℕ) (ordered : Bool)
        → o ≡ some (part, (next, ordered))
        → k part next ≡ k' part next)
    → (if closed then x else if broken then Parsed.refused else follow o k)
      ≡ (if closed then x else if broken then Parsed.refused else follow o k')
unfolding follow
same_round true broken o x k k' h = refl
same_round false true o x k k' h = refl
same_round false false none x k k' h = refl
same_round false false (some (part, (next, true))) x k k' h = h part next true refl
same_round false false (some (part, (next, false))) x k k' h = refl

round_finishes :
    (closed broken : Bool) (o : Option (Part × (ℕ × Bool))) (done : List Part)
    (k : Part → ℕ → Parsed)
    → ((part : Part) (next : ℕ) (ordered : Bool)
        → o ≡ some (part, (next, ordered))
        → k part next ≢ Parsed.unfinished)
    → (if closed then Parsed.parts done else if broken then Parsed.refused else follow o k)
      ≢ Parsed.unfinished
unfolding follow
round_finishes true broken o done k h = λ q. absurd (cc)
round_finishes false true o done k h = λ q. absurd (cc)
round_finishes false false none done k h = λ q. absurd (cc)
round_finishes false false (some (part, (next, true))) done k h = h part next true refl
round_finishes false false (some (part, (next, false))) done k h = λ q. absurd (cc)

module _ (t : Texts) (delimiter body : Bytes) where
  -- Two fuels that are above the number of bytes from the cursor on give the same result.
  rounds_enough :
      (fuel other cursor : ℕ) (done : List Part)
      → cursor ≤ length body
      → length body < fuel + cursor
      → length body < other + cursor
      → rounds t fuel delimiter body cursor done ≡ rounds t other delimiter body cursor done
  unfolding rounds follow
  rounds_enough zero other cursor done inside enough enough' = absurd (omega arith)
  rounds_enough (suc fuel) zero cursor done inside enough enough' = absurd (omega arith)
  rounds_enough (suc fuel) (suc other) cursor done inside enough enough' =
      let at = cursor + length delimiter in
      same_round (starts_with (codes "--") (drop at body)) (not (starts_with crlf (drop at body)))
        (part_at t delimiter body (at + 2)) (Parsed.parts done)
        (λ part next. rounds t fuel delimiter body next (done ++ part ∷ []))
        (λ part next. rounds t other delimiter body next (done ++ part ∷ []))
        (λ part next ordered found.
          let (after, within) =
            part_at-next t delimiter body (at + 2) (part, (next, ordered)) found in
          rounds_enough fuel other next (done ++ part ∷ []) within (omega (arith, after, enough))
            (omega (arith, after, enough')))

  rounds-finishes :
      (fuel cursor : ℕ) (done : List Part)
      → cursor ≤ length body
      → length body < fuel + cursor
      → rounds t fuel delimiter body cursor done ≢ Parsed.unfinished
  unfolding rounds follow
  rounds-finishes zero cursor done inside enough = absurd (omega arith)
  rounds-finishes (suc fuel) cursor done inside enough =
      let at = cursor + length delimiter in
      round_finishes (starts_with (codes "--") (drop at body))
        (not (starts_with crlf (drop at body))) (part_at t delimiter body (at + 2)) done
        (λ part next. rounds t fuel delimiter body next (done ++ part ∷ []))
        (λ part next ordered found.
          let (after, within) =
            part_at-next t delimiter body (at + 2) (part, (next, ordered)) found in
          rounds-finishes fuel next (done ++ part ∷ []) within (omega (arith, after, enough)))

-- The reader ends on every header and body, whatever the library's functions on text do: the loop, of
-- which a round needs one unit of fuel, never runs out of the fuel that it starts with, one more than
-- the body has bytes, since each round moves its cursor forward and never behind the body's end.
pub parse-finishes :
    (t : Texts) (content_type body : Bytes) → parse t content_type body ≢ Parsed.unfinished
unfolding parse
parse-finishes t content_type body = elim (Option-cases (boundary t content_type)) [
  | inl e ↦ rw (parse, e) (λ q. absurd (cc))
  | inr (name, e) ↦ elim (Bool-cases (length name == 0)) [
    | inl f ↦ rw (parse, e, f, if◌then◌else◌) (λ q. absurd (cc))
    | inr f ↦ elim (Option-cases (find_from body (codes "--" ++ name) 0)) [
      | inl g ↦ rw (parse, e, f, if◌then◌else◌, g) (λ q. absurd (cc))
      | inr (cursor, g) ↦
          let range = find_from-range body (codes "--" ++ name) 0 cursor g in
          rw (parse, e, f, if◌then◌else◌, g)
            (rounds-finishes t (codes "--" ++ name) body (suc (length body)) cursor [] range.1
              (omega arith))
    ]
  ]
]
