-- ===== src/CleanPath/Storage.antt =====
-- The form in which an assembly is stored, src/path.rs. `to_text` and `from_text` are serde_json's
-- on lists of optional points.
use noobscenic.Prelude.{Bytes, [], Option, unwrap_or}
use noobscenic.CleanPath.{Assembly}

module _ {P : Type 0} (to_text : Assembly P → Bytes) (from_text : Bytes → Option (Assembly P)) where
  unfoldable pub from_json : Bytes → Assembly P
  from_json json = unwrap_or [] (from_text json)

  unfoldable pub to_json : Assembly P → Bytes
  to_json a = to_text a
