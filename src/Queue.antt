-- ===== src/Queue.antt =====
-- The outbound command queue, src/commands.rs: one drain pass over the `commands` table.
-- A pass reads one clock. The database answers every statement; what happens on its errors is not here.
pub mod Sorting
pub mod Clearing
pub mod Delivery
use noobscenic.Prelude.{
  ℕ, zero, suc, ◌+◌, ◌*◌, ◌/◌, ◌%◌, ltb, leb, ℤ, pos, negsuc, ◌-ℤ◌, ◌=ℤ◌, Bytes, Bool, true, false,
  List, [], ◌∷◌, ◌++◌, Option, none, some, ◌⊎◌, inl, inr, codes, if◌then◌else◌,
}
use noobscenic.Json.{Value, str, obj, end, field}
use noobscenic.ChannelB.Envelope.{envelope, message}
use noobscenic.ChannelB.Registry
use noobscenic.ChannelB.Registry.{ConnHandle, Outbound, command, Registry}
use noobscenic.Db.Commands.{
  Table, QueuedCommand, expire_commands, pending_command_sns, claim_commands, fail_command,
}
use noobscenic.Db.Sessions.{Sessions, latest_session_key}

-- The settings that a pass reads, and whether the `history` feature is on.
pub record Config : Type 0 where
  pub history : Bool
  pub command_ttl_secs : ℕ
  pub encrypt_commands : Bool

-- The table, and the frames handed to the writers of the connections, oldest first.
pub record World : Type 0 where
  pub table : Table
  pub sent : List (ℕ × Outbound)

-- `Result<Value, String>`
pub data Framed : Type 0 where
  framed : Value → Framed
  refused : Bytes → Framed

-- The digits of a number; `fuel` bounds them.
digits : ℕ → ℕ → Bytes
digits zero n = []
digits (suc fuel) n =
    let front = digits fuel (n / 10) in
    if ltb n 10 then (48 + n) ∷ [] else front ++ (48 + n % 10) ∷ []

-- `i64::to_string`
unfoldable pub decimal : ℤ → Bytes
unfolding digits
decimal (pos n) = digits (suc n) n
decimal (negsuc n) = b'-' ∷ digits (suc (suc n)) (suc n)

abbrev pub cloud_user : Bytes
cloud_user = codes "noobscenic"

abbrev pub reply_info : ℤ → Value
reply_info now =
    obj (field (codes "ts") (str (decimal now)) (field (codes "userId") (str cloud_user) end))

-- `sort_by_key(|command| command.id)`, which is stable.
unfoldable pub insert_by_id : QueuedCommand → List QueuedCommand → List QueuedCommand
insert_by_id c [] = c ∷ []
insert_by_id c (d ∷ ds) =
    let rest = insert_by_id c ds in if leb c.id d.id then c ∷ d ∷ ds else d ∷ rest

unfoldable pub sort_by_id : List QueuedCommand → List QueuedCommand
sort_by_id [] = []
sort_by_id (c ∷ cs) = insert_by_id c (sort_by_id cs)

-- The end of a pass over one command: the frame is queued on the connection, or the row fails.
unfoldable pub hand_over : Bool → (ℕ → Bool) → ConnHandle → QueuedCommand → Framed → World → World
hand_over history is_open h c (refused error) w = record w {
  table = fail_command history c.id error w.table;
}
hand_over history is_open h c (framed frame) w =
    if is_open h.conn_id
    then record w { sent = w.sent ++ (h.conn_id, command c.id frame) ∷ [] }
    else record w {
      table =
          fail_command history c.id (codes "connection closed before the frame was written")
            w.table;
    }

-- `from_str` is `serde_json`'s, with the text of its error; `encrypt_message` is that of crypto.rs;
-- `is_open` says whether the writer of a connection still takes frames, and `returning` is the order
-- in which SQLite hands out the rows of an UPDATE … RETURNING.
module _ (from_str : Bytes → Bytes ⊎ Value) (encrypt_message : Value → Bytes → Option Bytes)
    (is_open : ℕ → Bool) (returning : List QueuedCommand → List QueuedCommand) where
  -- The key is the newest live one of the device.
  unfoldable pub encrypted_frame : Option Bytes → ℤ → ℤ → Value → Framed
  encrypted_frame none now info_type data' = refused (codes "encrypt:1 but no live session key")
  encrypted_frame (some key) now info_type data' =
      elim (encrypt_message (message info_type data' (some (reply_info now))) key) [
        | none ↦ refused (codes "session key is too short for AES-128")
        | some ciphertext ↦ framed (envelope (pos 1) (str ciphertext))
      ]

  -- `push` up to the frame.
  unfoldable pub frame_of : Config → Option Bytes → ℤ → QueuedCommand → Framed
  frame_of cfg key now c = elim (from_str c.payload) [
    | inl error ↦ refused (codes "payload is not JSON: " ++ error)
    | inr data' ↦
        if c.encrypt =ℤ pos 0
        then framed (envelope (pos 0) (message c.info_type data' (some (reply_info now))))
        else if cfg.encrypt_commands
        then encrypted_frame key now c.info_type data'
        else refused (codes "encrypt:1 requested but gateway.encrypt_commands is off")
  ]

  unfoldable pub push : Config → Option Bytes → ℤ → ConnHandle → QueuedCommand → World → World
  push cfg key now h c w = hand_over cfg.history is_open h c (frame_of cfg key now c) w

  unfoldable pub push_all :
      Config → Option Bytes → ℤ → ConnHandle → List QueuedCommand → World → World
  push_all cfg key now h [] w = w
  push_all cfg key now h (c ∷ cs) w = push_all cfg key now h cs (push cfg key now h c w)

  -- One device of the loop: nothing is claimed while it is offline.
  unfoldable pub drain_device : Config → Sessions → Option ConnHandle → ℤ → Bytes → World → World
  drain_device cfg sessions none now sn w = w
  drain_device cfg sessions (some h) now sn w =
      let claimed = claim_commands sn now w.table in
      push_all cfg (latest_session_key sn sessions) now h (sort_by_id (returning claimed.1))
        (record w { table = claimed.0 })

  unfoldable pub drain_sns : Config → Sessions → Registry → ℤ → List Bytes → World → World
  drain_sns cfg sessions r now [] w = w
  drain_sns cfg sessions r now (sn ∷ sns) w =
      drain_sns cfg sessions r now sns (drain_device cfg sessions (Registry.get sn r) now sn w)

  unfoldable pub drain_once : Config → Sessions → Registry → ℤ → World → World
  drain_once cfg sessions r now w =
      let t = (expire_commands cfg.history (now -ℤ pos (cfg.command_ttl_secs * 1000)) w.table).0 in
      drain_sns cfg sessions r now (pending_command_sns t) (record w { table = t })
