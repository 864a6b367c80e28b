-- ===== src/Backup.antt =====
-- The map-export container `NBMP`, src/backup.rs.
pub mod LittleEndian
pub mod RoundTrip
use noobscenic.Prelude.{
  ℕ, zero, suc, ◌+◌, ◌-◌, ◌*◌, ◌/◌, ◌%◌, ◌^◌, ◌≤◌, ◌<◌, Bytes, Bool, true, false, List, [], ◌∷◌,
  ◌++◌, Option, none, some, ◌==◌, ltb, length, take, drop, text_eq, starts_with, not, if◌then◌else◌,
  position, ◌≡◌, codes,
}
use LittleEndian.{to_le_bytes, from_le_bytes}

-- `NBMP`
abbrev pub fourcc : Bytes
fourcc = b'N' ∷ b'B' ∷ b'M' ∷ b'P' ∷ []

abbrev pub version : ℕ
version = 1

-- The bytes in front of the serial: name, version, length and md5.
abbrev pub fixed : ℕ
fixed = 4 + 4 + 4 + 16

abbrev pub gzip_magic : Bytes
gzip_magic = 0x1f ∷ 0x8b ∷ []

pub record Export : Type 0 where
  pub sn : Bytes
  pub blob : Bytes

pub data Refusal : Type 0 where
  bare_bkmap too_short not_nbmp no_terminator not_utf8 empty_serial : Refusal
  bad_version : ℕ → Refusal
  bad_length : ℕ → ℕ → Refusal
  not_gzip corrupt : Refusal

pub data Result : Type 0 where
  ok : Export → Result
  err : Refusal → Result

-- `Md5::digest` and the test of `String::from_utf8` are the libraries'.
pub record Hashes : Type 0 where
  pub digest : Bytes → Bytes
  pub is_utf8 : Bytes → Bool
  pub length-digest : (b : Bytes) → length (digest b) ≡ 16

module _ (h : Hashes) where
  open h use {digest, is_utf8}

  -- `none` is the panic of `u32::try_from(..).expect(..)`.
  unfoldable pub encode : Bytes → Bytes → Option Bytes
  encode sn blob =
      if ltb (length blob) (2 ^ 32)
      then some (
          fourcc
          ++ (to_le_bytes version
              ++ (to_le_bytes (length blob) ++ (digest blob ++ (sn ++ (0 ∷ blob))))))
      else none

  -- The tests on the payload, against the header's length and md5.
  check_blob : ℕ → Bytes → Bytes → Bytes → Result
  check_blob len md5 sn blob =
      if not (length blob == len)
      then err (bad_length len (length blob))
      else if not (starts_with gzip_magic blob)
      then err not_gzip
      else if not (text_eq (digest blob) md5)
      then err corrupt
      else ok (record { sn = sn; blob = blob })

  -- The serial, up to the first zero behind the fixed part, and what follows it.
  check_serial : ℕ → Bytes → Bytes → Result
  check_serial len md5 tail = elim (position (λ byte. byte == 0) tail) [
    | none ↦ err no_terminator
    | some nul ↦
        if not (is_utf8 (take nul tail))
        then err not_utf8
        else if length (take nul tail) == 0
        then err empty_serial
        else check_blob len md5 (take nul tail) (drop 1 (drop nul tail))
  ]

  unfoldable pub decode : Bytes → Result
  unfolding check_serial check_blob
  decode bytes =
      if starts_with gzip_magic bytes
      then err bare_bkmap
      else if ltb (length bytes) (fixed + 1)
      then err too_short
      else if not (text_eq (take 4 bytes) fourcc)
      then err not_nbmp
      else if not (from_le_bytes (take 4 (drop 4 bytes)) == version)
      then err (bad_version (from_le_bytes (take 4 (drop 4 bytes))))
      else check_serial (from_le_bytes (take 4 (drop 8 bytes))) (take 16 (drop 12 bytes))
          (drop fixed bytes)
