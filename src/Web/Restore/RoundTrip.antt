-- ===== src/Web/Restore/RoundTrip.antt =====
-- From the export of a map backup to the file that the robot fetches, of src/web.rs.
use noobscenic.Prelude.{
  ℕ, ◌≤◌, ◌<◌, All, ◌++◌, ◌∷◌, ◌∙◌, Bytes, true, [], Option, none, some, text_refl, starts_with,
  keep, length, ◌≡◌, ◌≢◌, refl, arith, Result, pos, codes,
}
use noobscenic.Json.{obj, end, field, str}
use noobscenic.Backup
use noobscenic.Backup.{Hashes, Export, gzip_magic}
use noobscenic.Backup.RoundTrip.{NoZero, decode-encode}
use noobscenic.ChannelA.Register.{hex_of}
use noobscenic.Db.Commands.{Table, insert_command}
use noobscenic.Db.Devices.{device_sn_by_id}
use noobscenic.Db.Slots.{is_backup, load_map_backup}
use noobscenic.Db.Slots.Versions.{load-upsert_map_backup}
use noobscenic.Web.State.{Env, queue}
use noobscenic.Web.Restore.Address.{IsWord, hex_of-IsWord, fetch_down_url}
use noobscenic.Web.Restore.{
  Vault, Answer, file, restoring, panics, max_import_bytes, read_body, robot_facing_host, md5_hex,
  backup_export, backup_import, backup_blob, restore, on_vault, export_file, touched, down_url,
  download,
}

same_file :
    (o : Option Bytes) (label name bytes : Bytes)
    → elim o as (λ x. Answer) [ none ↦ panics | some b ↦ file label b ] ≡ file name bytes
    → o ≡ some bytes
same_file none label name bytes e = absurd (cc)
same_file (some b) label name bytes e = cc

module _ (env : Env) (h : Hashes) where
  open env use {to_text, now}

  -- The command of a restore, with its number.
  abbrev pub ordered : Bytes → Bytes → Bytes → Bytes → Table → Table × ℕ
  ordered sn host token blob t =
      let url = str (down_url host sn token) in
      let md5 = str (md5_hex h blob) in
      insert_command sn (pos 21025)
        (to_text (obj (field (codes "downUrl") url (field (codes "md5") md5 end)))) (pos 0) now t

IsWord-NoZero : (s : Bytes) → IsWord s → NoZero s
IsWord-NoZero [] w = tt
IsWord-NoZero (c ∷ s) w = (λ z. let v = w.0 in ground arith, IsWord-NoZero s w.1)

hex_of-some : (s : Bytes) → s ≢ [] → hex_of s ≢ []
unfolding hex_of
hex_of-some [] n e = n refl
hex_of-some (b ∷ s) n e = absurd (cc)

module _ {F : Type 0} (env : Env) (h : Hashes) where
  open env use {now}

  -- What an import that restores a blob leaves, of the state behind it and its answer: the robot
  -- finds the blob by a GET of what follows the host in the address, and the blob is the one staged for
  -- the device; the command in the queue and the answer name the address and the digest.
  pub record Restores (percent : Bytes → Bytes) (sn host token blob : Bytes) (t : Table)
      (r : Vault F × Answer) : Type 0 where
    pub fetched :
        (page : Bytes) × (down_url host sn token ≡ codes "http://" ++ (host ++ page))
        × (download percent page r.0 ≡ some blob)
    pub staged : load_map_backup sn r.0.backups ≡ some (md5_hex h blob, blob)
    pub commanded : r.0.web.commands ≡ (ordered env h sn host token blob t).0
    pub answered :
        r.1
        ≡ restoring
            (ordered env h sn host token blob t).1
            (down_url host sn token)
            (md5_hex h blob)
            (length blob)

  restore-Restores :
      (percent : Bytes → Bytes) (sn host random blob : Bytes) (v : Vault F)
      → ((s : Bytes) → IsWord s → percent s ≡ s)
      → IsWord sn
      → sn ≢ []
      → All (λ b. b < 256) random
      → random ≢ []
      → length (keep (is_backup sn) v.backups) ≤ 1
      → Restores percent sn host
          (hex_of random)
          blob
          v.web.commands
          (restore env h sn host random blob v)
  unfolding restore backup_blob queue
  restore-Restores percent sn host random blob v plain word ne small some_random one =
      let (fetched, staged, meta, still) =
        load-upsert_map_backup sn none (md5_hex h blob) (hex_of random) (hex_of random) blob now
          v.backups one in
      let token = hex_of random in
      let (page, there, got) =
        fetch_down_url percent host sn token (restore env h sn host random blob v).0 plain word ne
          (hex_of-IsWord random small) (hex_of-some random some_random) in
      record {
        fetched = (page, there, got ∙ rw (text_refl token) at fetched);
        staged = staged;
        commanded = refl;
        answered = refl;
      }

  known_vault :
      (id sn : Bytes) (v : Vault F) (handle : Bytes → Vault F → Vault F × Answer)
      → device_sn_by_id id v.web.devices ≡ some sn
      → on_vault env h id v handle ≡ handle sn (touched env h sn v)
  unfolding on_vault
  known_vault id sn v handle e = rw (e, on_vault)

  exported :
      (id stamp sn md5 blob name bytes : Bytes) (v : Vault F)
      → device_sn_by_id id v.web.devices ≡ some sn
      → load_map_backup sn v.backups ≡ some (md5, blob)
      → (backup_export env h id stamp v).1 ≡ file name bytes
      → Backup.encode h sn blob ≡ some bytes
  unfolding backup_export export_file
  exported id stamp sn md5 blob name bytes v known stored e =
      let shown = rw (known_vault id sn v _ known, stored, export_file) at e in
      same_file (Backup.encode h sn blob) _ name bytes shown

  -- A backup that was exported, of a serial of letters, digits, '-' and '_' that is not empty, and of
  -- a blob that begins like gzip, is restored by an import, within the limit on bodies, for a device
  -- of the same serial under any id and on any server with at most one backup for the device, when
  -- the page was opened at a host that the robot can reach and the token is the hexadecimal text of at
  -- least one byte. The address that the queued command and the answer name is then "http://", the
  -- host and a path, and a GET of that path, by the route /backup/{sn}/{token} of a router whose
  -- percent-decoding leaves such characters alone, gives exactly those bytes; the digest that the
  -- command and the answer name is theirs.
  pub import-export :
      (trim percent : Bytes → Bytes) (id id' stamp sn md5 blob name bytes host random : Bytes)
      (header : Option Bytes) (v w : Vault F)
      → ((s : Bytes) → IsWord s → percent s ≡ s)
      → IsWord sn
      → sn ≢ []
      → All (λ b. b < 256) random
      → random ≢ []
      → h.is_utf8 sn ≡ true
      → starts_with gzip_magic blob ≡ true
      → device_sn_by_id id v.web.devices ≡ some sn
      → load_map_backup sn v.backups ≡ some (md5, blob)
      → (backup_export env h id stamp v).1 ≡ file name bytes
      → length bytes ≤ max_import_bytes
      → device_sn_by_id id' w.web.devices ≡ some sn
      → robot_facing_host trim header ≡ Result.ok host
      → length (keep (is_backup sn) w.backups) ≤ 1
      → Restores percent sn host
          (hex_of random)
          blob
          w.web.commands
          (backup_import env h trim id' header random bytes w)
  unfolding backup_import
  import-export trim percent id id' stamp sn md5 blob name bytes host random header v w plain word
        ne small some_random u g known stored e short known' facing one =
      let written = exported id stamp sn md5 blob name bytes v known stored e in
      let read = decode-encode h sn blob bytes (IsWord-NoZero sn word) ne u g written in
      let whole : read_body bytes ≡ bytes = ground arith in
      rw (known_vault id' sn w _ known', facing, whole, read, text_refl sn)
        (restore-Restores percent sn host random blob (touched env h sn w) plain word ne small
          some_random one)
