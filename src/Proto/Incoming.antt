-- ===== src/Proto/Incoming.antt =====
-- One incoming payload, `Incoming` of src/proto/dispatch.rs.
use noobscenic.Prelude.{ℤ, Bytes, Option}
use noobscenic.Json.{Value}

-- `payload` is the source's `data`.
pub record Incoming : Type 0 where
  pub sn : Bytes
  pub channel : Bytes
  pub endpoint : Option Bytes
  pub trace_ref : Option Bytes
  pub info_type : Option ℤ
  pub payload : Value
  pub event : Option ℤ
  pub task_id : Option Bytes
  pub device_ts : Option Bytes
  pub user_id : Option Bytes
