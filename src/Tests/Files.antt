-- ===== src/Tests/Files.antt =====
-- A map export of one serial and an eight-byte blob: src/backup.rs at concrete inputs.
use noobscenic.Prelude.{
  Bytes, true, [], ◌∷◌, ◌++◌, some, ◌≡◌, refl, codes, arith, replicate, ltb, every, All,
  starts_with,
}
use noobscenic.Backup.{Hashes, encode, decode, ok, gzip_magic}
use noobscenic.Backup.LittleEndian.{to_le_bytes, IsByte}
use noobscenic.Backup.RoundTrip.{NoZero, decode-encode, encode-decode}

-- A digest that is the same for every blob.
abbrev hashes : Hashes
hashes = record { digest = λ b. replicate 16 5; is_utf8 = λ b. true; length-digest = λ b. refl }

abbrev blob : Bytes
blob = 0x1f ∷ 0x8b ∷ 8 ∷ 0 ∷ []

abbrev file : Bytes
file =
    codes "NBMP" ++ (1 ∷ 0 ∷ 0 ∷ 0 ∷ 4 ∷ 0 ∷ 0 ∷ 0 ∷ []) ++ replicate 16 5 ++ codes "AB" ++ 0 ∷ blob

file-encode : encode hashes (codes "AB") blob ≡ some file
unfolding encode to_le_bytes
file-encode = refl

starts_gzip : starts_with gzip_magic blob ≡ true
unfolding starts_with
starts_gzip = refl

serial_bytes : NoZero (codes "AB")
serial_bytes = (ground arith, (ground arith, tt))

bytes_of : (s : Bytes) → every (λ b. ltb b 256) s ≡ true → All IsByte s
unfolding every
bytes_of [] h = tt
bytes_of (b ∷ s) h = (ground arith, bytes_of s (ground arith))

decode-encode_example : decode hashes file ≡ ok (record { sn = codes "AB"; blob = blob })
decode-encode_example =
    decode-encode hashes (codes "AB") blob file serial_bytes (ground arith) refl starts_gzip
      file-encode

encode-decode_example : encode hashes (codes "AB") blob ≡ some file
unfolding every
encode-decode_example =
    encode-decode hashes file (record { sn = codes "AB"; blob = blob }) (bytes_of file refl)
      (decode-encode hashes (codes "AB") blob file serial_bytes (ground arith) refl starts_gzip
        file-encode)
