-- ===== src/Tests/Restore.antt =====
-- An export that is imported on another server: src/web.rs at concrete inputs.
use noobscenic.Prelude.{
  ℕ, pos, Bytes, true, [], ◌∷◌, ◌++◌, none, some, codes, ◌≡◌, refl, replicate, arith, text_eq,
  starts_with, find_first, keep, Result,
}
use noobscenic.Backup
use noobscenic.Backup.{Hashes}
use noobscenic.Backup.LittleEndian.{to_le_bytes}
use noobscenic.ChannelA.Form.{split_once}
use noobscenic.ChannelA.Multipart.{lower}
use noobscenic.Db.Rows.{newest_by}
use noobscenic.Db.Slots.{MapBackup, load_map_backup}
use noobscenic.ChannelA.Register.{hex_of}
use noobscenic.Db.Devices.{adopted, device_sn_by_id, device_label}
use noobscenic.Web.State.{Env}
use noobscenic.Web.Restore.{
  Vault, file, loopback, backup_export, backup_import, robot_facing_host, sanitise, host_name,
  ends_with, cleaned, trim_start_of, on_vault,
}
use noobscenic.Web.Restore.RoundTrip.{Restores, import-export}

abbrev hashes : Hashes
hashes = record { digest = λ b. replicate 16 7; is_utf8 = λ s. true; length-digest = λ b. refl }

abbrev env : Env
env = record { to_text = λ v. codes "{}"; from_str = λ s. none; is_online = λ s. true; now = pos 9 }

name_of_page : sanitise (codes "_my robot!") ≡ codes "my_robot"
unfolding sanitise
name_of_page = refl

local_page_is_refused : robot_facing_host (λ s. s) (some (codes "[::1]:8080")) ≡ Result.err loopback
unfolding robot_facing_host host_name lower split_once text_eq starts_with ends_with
local_page_is_refused = refl

abbrev blob : Bytes
blob = 0x1f ∷ 0x8b ∷ 1 ∷ []

abbrev exported : Bytes
exported =
    codes "NBMP" ++ (1 ∷ 0 ∷ 0 ∷ 0 ∷ 3 ∷ 0 ∷ 0 ∷ 0 ∷ (replicate 16 7 ++ (codes "A" ++ (0 ∷ blob))))

abbrev staged : MapBackup
staged = record {
  sn = codes "A";
  received_ms = pos 2;
  record_name = none;
  md5 = codes "07";
  size = 3;
  token = codes "t";
  blob = blob;
}

-- Two servers: one with the backup, and one that has only seen the device.
abbrev before : Vault ℕ
before = record {
  web = record {
    devices = adopted (codes "A") (pos 1) ∷ [];
    commands = [];
    store = record {
      events = [];
      paths = record { states = []; paths = [] };
      areas = [];
      goods = [];
      device_info = [];
      maps = [];
    };
    watchers = [];
    controls = [];
  };
  backups = staged ∷ [];
}

abbrev after : Vault ℕ
after = record before { backups = [] }

known : device_sn_by_id (codes "A") before.web.devices ≡ some (codes "A")
unfolding device_sn_by_id newest_by keep find_first text_eq
known = refl

stored : load_map_backup (codes "A") before.backups ≡ some (codes "07", blob)
unfolding load_map_backup find_first text_eq
stored = refl

shown :
    (backup_export env hashes (codes "A") (codes "0") before).1 ≡ file (codes "A-0.nbmap") exported
unfolding backup_export on_vault device_sn_by_id device_label load_map_backup Backup.encode
    to_le_bytes newest_by keep find_first text_eq sanitise cleaned trim_start_of
shown = refl

reached : robot_facing_host (λ s. s) (some (codes "nas:80")) ≡ Result.ok (codes "nas:80")
unfolding robot_facing_host host_name lower split_once text_eq starts_with ends_with
reached = refl

import-export_example :
    Restores env hashes
      (λ s. s)
      (codes "A")
      (codes "nas:80")
      (hex_of (1 ∷ []))
      blob
      []
      (backup_import env hashes
        (λ s. s)
        (codes "A")
        (some (codes "nas:80"))
        (1 ∷ [])
        exported
        after)
unfolding starts_with keep
import-export_example =
    import-export env hashes (λ s. s) (λ s. s) (codes "A") (codes "A") (codes "0") (codes "A")
      (codes "07") blob (codes "A-0.nbmap") exported (codes "nas:80") (1 ∷ [])
      (some (codes "nas:80")) before after (λ s w. refl) (refl, tt) (cc) (omega arith, tt) (cc) refl
      refl known stored shown (omega arith) known reached (omega arith)
