-- ===== src/ChannelA/Uploads/Staging.antt =====
-- When an upload is answered with success, of src/channel_a/handlers/uploads.rs.
use noobscenic.Prelude.{
  ◌≤◌, Bytes, true, false, List, [], Option, some, codes, unwrap_or, or_else, ◌>>=◌, text_eq,
  text_iff, text_refl, keep, length, Bool-cases, Option-cases, ◌≡◌, ◌≢◌, ◌⊎◌, inl, inr, refl, arith,
  ap, ◌∙◌,
}
use noobscenic.Json.{Fields, end}
use noobscenic.ChannelA.Multipart
use noobscenic.ChannelA.Multipart.{Part, Parsed}
use noobscenic.ChannelA.Register.{hex_of}
use noobscenic.ChannelA.Server.{Server, Settings, Externals, Request, Answer, done, body_of}
use noobscenic.ChannelA.Handlers.{insert_upload_raw}
use noobscenic.ChannelA.Uploads.{
  find_part, text_of, md5_of, serial_of, is_intact, stage, stage_backup, part_fields, upload_raw,
}
use noobscenic.Db.Slots.{is_backup, load_map_backup, load_map_backup_by_token}
use noobscenic.Db.Slots.Versions.{load-upsert_map_backup}

module _ {F : Type 0} (g : Settings) (x : Externals F) where
  -- The digest that the robot sent with its parts.
  abbrev pub declared : List Part → Option Bytes
  declared parts = find_part (codes "backupMapMd5") parts >>= text_of g x

  intact_cases :
      (parts : List Part) (backup : Part)
      → ((is_intact g x parts backup ≡ true) × (declared parts ≡ some (md5_of g x backup)))
        ⊎ ((is_intact g x parts backup ≡ false) × (declared parts ≢ some (md5_of g x backup)))
  unfolding is_intact
  intact_cases parts backup = elim (Option-cases (declared parts)) [
    | inl e ↦ inr (rw (e, is_intact) refl, rw e (cc))
    | inr (d, e) ↦ elim (Bool-cases (text_eq d (md5_of g x backup))) [
      | inl k ↦ inl (rw (e, is_intact) k, rw e (ap some ((text_iff _ _).0 k)))
      | inr k ↦
          inr (rw (e, is_intact) k, rw e (λ q. ground (arith, text_iff d (md5_of g x backup))))
    ]
  ]

  -- The upload keeps the backups, but for the one that it stages.
  insert_upload_raw-backups :
      (sn : Option Bytes) (endpoint : Bytes) (fields : Fields) (r : Request) (s : Server F)
      → (insert_upload_raw g x sn endpoint fields r s).backups ≡ s.backups
  unfolding insert_upload_raw
  insert_upload_raw-backups sn endpoint fields r s = ground arith

  upload_raw-parts :
      (r : Request) (s : Server F) (parts : List Part)
      → Multipart.parse x.texts (unwrap_or [] (r.content_type >>= x.to_str)) (body_of r)
        ≡ Parsed.parts parts
      → (fields : Fields) × (upload_raw g x r s
          ≡ stage_backup g x parts r
              (insert_upload_raw g x (serial_of g x parts) r.path fields r s))
  unfolding upload_raw
  upload_raw-parts r s parts e = (part_fields g x parts end, rw (upload_raw, e) refl)

  stage_backup_lem :
      (parts : List Part) (backup : Part) (r : Request) (u : Server F)
      → find_part (codes "backupMap") parts ≡ some backup
      → (is_intact g x parts backup ≡ true
          → stage_backup g x parts r u ≡ (stage g x parts backup r u, done))
        × (is_intact g x parts backup ≡ false
            → stage_backup g x parts r u ≡ (u, Answer.upload_failed))
  unfolding stage_backup stage
  stage_backup_lem parts backup r u e =
      (λ k. rw (stage_backup, e, k) refl, λ k. rw (stage_backup, e, k) refl)

  -- An upload with a map backup, of parts that the reader accepts, is answered with success
  -- exactly when the digest that the robot declared is that of the part; only then may the robot
  -- delete its copy, and then the server can hand the bytes out again: they are staged under the
  -- device's serial, with their digest, and found under the new token. Otherwise the robot is told
  -- to retry and no backup has changed.
  pub upload_raw-stages :
      (r : Request) (s : Server F) (parts : List Part) (backup : Part)
      → Multipart.parse x.texts (unwrap_or [] (r.content_type >>= x.to_str)) (body_of r)
        ≡ Parsed.parts parts
      → find_part (codes "backupMap") parts ≡ some backup
      → let sn = unwrap_or (codes "-") (serial_of g x parts) in
        length (keep (is_backup sn) s.backups) ≤ 1
        → let q = upload_raw g x r s in
          ((declared parts ≡ some (md5_of g x backup))
            × (q.1 ≡ done)
            × (load_map_backup sn q.0.backups ≡ some (md5_of g x backup, backup.content))
            × (load_map_backup_by_token sn (hex_of r.token) q.0.backups ≡ some backup.content))
          ⊎ ((declared parts ≢ some (md5_of g x backup))
              × (q.1 ≡ Answer.upload_failed)
              × (q.0.backups ≡ s.backups))
  unfolding stage
  upload_raw-stages r s parts backup parsed found one =
      let (fields, shape) = upload_raw-parts r s parts parsed in
      let u = insert_upload_raw g x (serial_of g x parts) r.path fields r s in
      let same = insert_upload_raw-backups (serial_of g x parts) r.path fields r s in
      elim (intact_cases parts backup) [
        | inl (k, e) ↦
            let run = shape ∙ (stage_backup_lem parts backup r u found).0 k in
            let sn = unwrap_or (codes "-") (serial_of g x parts) in
            let name =
              or_else (find_part (codes "cleanFile") parts >>= λ p. p.filename) backup.filename in
            let (fetched, staged, meta, still) =
              load-upsert_map_backup sn name (md5_of g x backup) (hex_of r.token) (hex_of r.token)
                backup.content r.now u.backups (rw same one) in
            inl (rw run (e, refl, staged, rw (text_refl (hex_of r.token)) at fetched))
        | inr (k, e) ↦
            let run = shape ∙ (stage_backup_lem parts backup r u found).1 k in
            inr (rw run (e, refl, same))
      ]
