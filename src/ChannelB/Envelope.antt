-- ===== src/ChannelB/Envelope.antt =====
-- The outbound message shapes of src/channel_b/codec.rs.
use noobscenic.Prelude.{ℤ, Option, none, some, codes}
use noobscenic.Json.{Value, int, obj, end, field}

-- `json!({"encrypt": encrypt, "data": message})`, the members in key order.
abbrev pub envelope : ℤ → Value → Value
envelope encrypt inner =
    obj (field (codes "data") inner (field (codes "encrypt") (int encrypt) end))

-- The inner message, with `dInfo` where a reply is wanted.
abbrev pub message : ℤ → Value → Option Value → Value
message info_type content none =
    obj (field (codes "data") content (field (codes "infoType") (int info_type) end))
message info_type content (some d_info) = obj (
    field (codes "dInfo") d_info
      (field (codes "data") content (field (codes "infoType") (int info_type) end)))
