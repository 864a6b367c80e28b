-- ===== src/Backup/RoundTrip.antt =====
-- `encode` and `decode` of src/backup.rs, one after the other.
use noobscenic.Prelude.{
  ℕ, zero, suc, ◌+◌, ◌^◌, ◌≤◌, ◌<◌, ◌≡◌, ◌≢◌, inl, inr, refl, ap, sym, ◌∙◌, Bytes, true, false, [],
  ◌∷◌, ◌++◌, some, ◌==◌, ltb, length, length-append, take, drop, take_exact, drop_exact, drop-drop,
  take-append-drop, text_iff, text_refl, starts_with, position, arith, All, Bool-cases,
  Option-cases, take-append_left, drop-append_left, length-drop, length-take,
}
use noobscenic.Backup.{
  fourcc, version, fixed, gzip_magic, Export, ok, Hashes, encode, check_blob, check_serial, decode,
}
use noobscenic.Backup.LittleEndian.{
  to_le_bytes, from_le_bytes, IsByte, length-to_le_bytes, from_le_bytes-lt, All-take, All-drop,
  from-to_le_bytes, to-from_le_bytes,
}

abbrev pub NoZero : Bytes → Type 0
NoZero = All (λ b. b ≢ 0)

position-NoZero :
    (sn rest : Bytes)
    → NoZero sn
    → position (λ byte. byte == 0) (sn ++ (0 ∷ rest)) ≡ some (length sn)
unfolding position
position-NoZero [] rest h = refl
position-NoZero (b ∷ sn) rest h = ground (arith, position-NoZero sn rest h.1)

position-split :
    (tail : Bytes) (at : ℕ)
    → position (λ byte. byte == 0) tail ≡ some at
    → tail ≡ take at tail ++ (0 ∷ drop 1 (drop at tail))
unfolding position
position-split [] at h = cc
position-split (b ∷ tail) zero h = ground arith
position-split (b ∷ tail) (suc at) h = ground (arith, position-split tail at)

length_container :
    (v l m t : Bytes)
    → length (fourcc ++ (v ++ (l ++ (m ++ t)))) ≡ 4 + length v + length l + length m + length t
length_container v l m t = omega (
  arith,
  length-append {0} v (l ++ (m ++ t)),
  length-append {0} l (m ++ t),
  length-append {0} m t,
)

-- The parts of a container, as `decode` cuts them out.
record Slices (bytes v l m t : Bytes) : Type 0 where
  name : take 4 bytes ≡ fourcc
  version_bytes : take 4 (drop 4 bytes) ≡ v
  length_bytes : take 4 (drop 8 bytes) ≡ l
  md5_bytes : take 16 (drop 12 bytes) ≡ m
  tail : drop fixed bytes ≡ t

slices :
    (v l m t : Bytes)
    → length v ≡ 4
    → length l ≡ 4
    → length m ≡ 16
    → Slices (fourcc ++ (v ++ (l ++ (m ++ t)))) v l m t
slices v l m t hv hl hm =
    let body : Bytes = v ++ (l ++ (m ++ t)) in
    let behind_v : drop 4 body ≡ l ++ (m ++ t) = drop_exact 4 v _ hv in
    let behind_l : drop 8 body ≡ m ++ t =
      sym (drop-drop 4 4 body) ∙ ap (drop 4) behind_v ∙ drop_exact 4 l _ hl in
    record {
      name = refl;
      version_bytes = take_exact 4 v _ hv;
      length_bytes = ap (take 4) behind_v ∙ take_exact 4 l _ hl;
      md5_bytes = ap (take 16) behind_l ∙ take_exact 16 m t hm;
      tail = sym (drop-drop 16 8 body) ∙ ap (drop 16) behind_l ∙ drop_exact 16 m t hm;
    }

module _ (h : Hashes) where
  check_blob-ok :
      (len : ℕ) (md5 sn blob : Bytes) (e : Export)
      → check_blob h len md5 sn blob ≡ ok e
      → (e ≡ record { sn = sn; blob = blob }) × (length blob ≡ len) × (h.digest blob ≡ md5)
  unfolding check_blob
  check_blob-ok len md5 sn blob e q = ground (arith, text_iff (h.digest blob) md5)

  check_serial-ok :
      (len : ℕ) (md5 tail : Bytes) (e : Export)
      → check_serial h len md5 tail ≡ ok e
      → (tail ≡ e.sn ++ (0 ∷ e.blob))
        × (length e.blob ≡ len)
        × (h.digest e.blob ≡ md5)
        × (e.sn ≢ [])
  unfolding check_serial
  check_serial-ok len md5 tail e q = elim (Option-cases (position (λ byte. byte == 0) tail)) [
    | inl gone ↦ absurd (ground arith)
    | inr (at, found) ↦
        let q' = rw (found, check_serial) at q in
        ground (
          arith,
          position-split tail at found,
          check_blob-ok len md5 (take at tail) (drop 1 (drop at tail)) e,
        )
  ]

  check_serial-append :
      (sn blob : Bytes)
      → NoZero sn
      → sn ≢ []
      → h.is_utf8 sn ≡ true
      → starts_with gzip_magic blob ≡ true
      → check_serial h (length blob) (h.digest blob) (sn ++ (0 ∷ blob))
        ≡ ok (record { sn = sn; blob = blob })
  unfolding check_serial check_blob
  check_serial-append sn blob z ne u g =
      rw
        (
          position-NoZero sn blob z,
          check_serial,
          take-append_left sn (0 ∷ blob),
          drop-append_left sn (0 ∷ blob),
        )
        (ground (arith, text_refl (h.digest blob)))

  decode-Slices :
      (bytes v l m t : Bytes)
      → Slices bytes v l m t
      → starts_with gzip_magic bytes ≡ false
      → fixed + 1 ≤ length bytes
      → from_le_bytes v ≡ version
      → decode h bytes ≡ check_serial h (from_le_bytes l) m t
  unfolding decode
  decode-Slices bytes v l m t s g long e =
      rw (g, s.name, s.version_bytes, s.length_bytes, s.md5_bytes, s.tail, e)
        (ground (arith, text_refl fourcc))

  -- An export that can be written, of a serial in UTF-8 that is not empty and has no zero byte,
  -- and of a blob that begins like gzip, is read back as it was written.
  pub decode-encode :
      (sn blob bytes : Bytes)
      → NoZero sn
      → sn ≢ []
      → h.is_utf8 sn ≡ true
      → starts_with gzip_magic blob ≡ true
      → encode h sn blob ≡ some bytes
      → decode h bytes ≡ ok (record { sn = sn; blob = blob })
  unfolding encode decode
  decode-encode sn blob bytes z ne u g e = elim (Bool-cases (ltb (length blob) (2 ^ 32))) [
    | inr big ↦ absurd (ground arith)
    | inl small ↦
        let l : Bytes = to_le_bytes (length blob) in
        let whole : Bytes =
          fourcc ++ (to_le_bytes version ++ (l ++ (h.digest blob ++ (sn ++ (0 ∷ blob))))) in
        let s =
          slices (to_le_bytes version) l (h.digest blob) (sn ++ (0 ∷ blob))
            (length-to_le_bytes version) (length-to_le_bytes (length blob))
            (h.length-digest blob) in
        let shape : whole ≡ bytes = ground arith in
        rw (← shape) (
          decode-Slices whole _ _ _ _ s (unfold starts_with in refl)
            (omega (
              arith,
              length_container (to_le_bytes version) l (h.digest blob) (sn ++ (0 ∷ blob)),
              length-to_le_bytes version,
              length-to_le_bytes (length blob),
              h.length-digest blob,
              length-append {0} sn (0 ∷ blob),
            ))
            (from-to_le_bytes version (omega arith))
          ∙ rw (from-to_le_bytes (length blob) (ground arith))
              (check_serial-append sn blob z ne u g))
  ]

  decode-ok :
      (bytes : Bytes) (e : Export)
      → decode h bytes ≡ ok e
      → (take 4 bytes ≡ fourcc)
        × (from_le_bytes (take 4 (drop 4 bytes)) ≡ version)
        × (fixed + 1 ≤ length bytes)
        × (check_serial h
              (from_le_bytes (take 4 (drop 8 bytes)))
              (take 16 (drop 12 bytes))
              (drop fixed bytes)
            ≡ ok e)
  unfolding decode
  decode-ok bytes e q = ground (arith, text_iff (take 4 bytes) fourcc)

  cut : (m n : ℕ) (b : Bytes) → drop m b ≡ take n (drop m b) ++ drop (m + n) b
  cut m n b =
      sym (take-append-drop n (drop m b))
      ∙ ap (λ (t : Bytes). take n (drop m b) ++ t) (drop-drop n m b)

  length-word : (m : ℕ) (bytes : Bytes) → m + 4 ≤ length bytes → length (take 4 (drop m bytes)) ≡ 4
  length-word m bytes l = omega (arith, length-take {0} 4 (drop m bytes), length-drop {0} m bytes)

  word :
      (m : ℕ) (bytes : Bytes)
      → All IsByte bytes
      → m + 4 ≤ length bytes
      → to_le_bytes (from_le_bytes (take 4 (drop m bytes))) ≡ take 4 (drop m bytes)
  word m bytes all l =
      to-from_le_bytes (take 4 (drop m bytes)) (length-word m bytes l)
        (All-take 4 (drop m bytes) (All-drop m bytes all))

  parts :
      (bytes : Bytes)
      → bytes
        ≡ take 4 bytes
          ++ (take 4 (drop 4 bytes)
              ++ (take 4 (drop 8 bytes) ++ (take 16 (drop 12 bytes) ++ drop 28 bytes)))
  parts bytes =
      let front = λ (n : ℕ) (m : ℕ) (t : Bytes). take n (drop m bytes) ++ t in
      cut 0 4 bytes
      ∙ ap (front 4 0)
          (cut 4 4 bytes ∙ ap (front 4 4) (cut 8 4 bytes ∙ ap (front 4 8) (cut 12 16 bytes)))

  -- A sequence of bytes that `decode` accepts is, byte for byte, the export of what it returns.
  pub encode-decode :
      (bytes : Bytes) (e : Export)
      → All IsByte bytes
      → decode h bytes ≡ ok e
      → encode h e.sn e.blob ≡ some bytes
  unfolding encode
  encode-decode bytes e all q =
      let (name, one, long, serial) = decode-ok bytes e q in
      let (tail, len, md5, ne) = check_serial-ok _ _ _ e serial in
      let small : length e.blob < 2 ^ 32 = rw len (
        from_le_bytes-lt _ (length-word 8 bytes (omega arith))
          (All-take 4 _ (All-drop 8 bytes all))) in
      let v : to_le_bytes version ≡ take 4 (drop 4 bytes) =
        rw (← one) (word 4 bytes all (omega arith)) in
      let l : to_le_bytes (length e.blob) ≡ take 4 (drop 8 bytes) =
        rw len (word 8 bytes all (omega arith)) in
      ground (arith, parts bytes, small, v, l, name, tail, md5)
