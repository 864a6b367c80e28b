-- ===== src/Tests/Queue.antt =====
-- Three commands for two devices: src/commands.rs and the `commands` table at concrete inputs.
use noobscenic.Prelude.{
  map, join, ap₂, ◌+◌, ◌-◌, ◌≤◌, ◌<◌, take, ℕ, ℤ, pos, Bytes, Bool, true, false, List, [], ◌∷◌,
  ◌++◌, Option, none, some, ◌≡◌, ◌⊎◌, inr, refl, codes, arith, keep, text_eq, length,
}
use noobscenic.Json.{Value, null}
use noobscenic.ChannelB.Registry.{ConnHandle, Registry, handle, get}
use noobscenic.ChannelB.Crypto.{encrypt_message}
use noobscenic.ChannelB.Crypto.Blocks.{encrypt_message_lem, Padded}
use noobscenic.Db.Commands.{
  Table, Row, State, pending, sent, claim_commands, ack_command, QueuedCommand, is_state, newest,
  is_ackable, comes_after, ack_row,
}
use noobscenic.Db.Commands.Ids.{Ascends}
use noobscenic.Db.Commands.Lifecycle.{Moves, apply_op, claim, apply_op-Moves, apply_op-Ascends}
use noobscenic.Db.Commands.Claims.{claim-claim}
use noobscenic.Db.Commands.Acks.{Acked, ack_command-Acked}
use noobscenic.Queue.{Config, World, drain_once, push_all}
use noobscenic.Queue.Clearing.{Cleared, drain_once-Cleared}
use noobscenic.Queue.Delivery.{frames_of, sent-push_all}

abbrev queue_row : ℕ → Bytes → State → Option ℤ → Row
queue_row id sn state sent_ms = record {
  id = id;
  sn = sn;
  info_type = pos 21005;
  payload = codes "{}";
  encrypt = pos 0;
  state = state;
  error = none;
  created_ms = pos 100;
  sent_ms = sent_ms;
  ack_ms = none;
  ack_payload = none;
  trace_ref = none;
}

abbrev table : Table
table =
    queue_row 1 (codes "A") sent (some (pos 150))
    ∷ queue_row 3 (codes "B") pending none
    ∷ queue_row 4 (codes "A") sent (some (pos 150))
    ∷ queue_row 7 (codes "A") pending none
    ∷ []

table-Ascends : Ascends 0 table
table-Ascends = (omega arith, (omega arith, (omega arith, (omega arith, tt))))

newest_is_acked : (ack_command true (codes "A") (pos 21005) [] (pos 200) (pos 120) table).1 ≡ some 4
unfolding ack_command ack_row newest keep is_ackable text_eq is_state comes_after
newest_is_acked = refl

apply_op-Moves_example : Moves table (apply_op true (claim (codes "A") (pos 200)) table)
apply_op-Moves_example = apply_op-Moves (claim (codes "A") (pos 200)) table table-Ascends

apply_op-Ascends_example : Ascends 0 (apply_op false (claim (codes "A") (pos 200)) table)
apply_op-Ascends_example = apply_op-Ascends false (claim (codes "A") (pos 200)) table table-Ascends

claim-claim_example :
    (claim_commands (codes "A") (pos 300) (claim_commands (codes "A") (pos 200) table).0).1 ≡ []
claim-claim_example = claim-claim (codes "A") (pos 200) (pos 300) table

ack_command-Acked_example :
    Acked true
      (codes "A")
      (pos 21005)
      []
      (pos 200)
      (pos 120)
      table
      (ack_command true (codes "A") (pos 21005) [] (pos 200) (pos 120) table)
ack_command-Acked_example =
    ack_command-Acked (codes "A") (pos 21005) [] (pos 200) (pos 120) table true

abbrev from_str : Bytes → Bytes ⊎ Value
from_str text = inr null

abbrev no_cipher : Value → Bytes → Option Bytes
no_cipher message key = none

abbrev all_open : ℕ → Bool
all_open id = true

abbrev as_stored : List QueuedCommand → List QueuedCommand
as_stored cs = cs

abbrev config : Config
config = record { history = true; command_ttl_secs = 60; encrypt_commands = false }

abbrev device_a : ConnHandle
device_a = handle 1 (codes "peer") (pos 0)

abbrev registry : Registry
registry = (codes "A", device_a) ∷ []

abbrev world : World
world = record { table = table; sent = [] }

device_a-online : get (codes "A") registry ≡ some device_a
unfolding get text_eq
device_a-online = refl

drain_once-Cleared_example :
    Cleared
      (codes "A")
      (drain_once from_str no_cipher all_open as_stored config [] registry (pos 200) world).table
drain_once-Cleared_example =
    drain_once-Cleared from_str no_cipher all_open as_stored config [] registry device_a (pos 200)
      (codes "A") world device_a-online

abbrev start : QueuedCommand
start = record { id = 7; info_type = pos 21005; payload = codes "{}"; encrypt = pos 0 }

sent-push_all_example :
    (all_open 1 ≡ true
      → (push_all from_str no_cipher all_open as_stored config none
          (pos 200)
          device_a
          (start ∷ [])
          world).sent
        ≡ []
          ++ frames_of from_str no_cipher all_open as_stored config none
              (pos 200)
              device_a
              (start ∷ []))
    × (all_open 1 ≡ false
        → (push_all from_str no_cipher all_open as_stored config none
            (pos 200)
            device_a
            (start ∷ [])
            world).sent
          ≡ [])
sent-push_all_example =
    sent-push_all from_str no_cipher all_open as_stored config none (pos 200) device_a (start ∷ [])
      world

-- A cipher of a block and its inverse.
abbrev shift_block : Bytes → Bytes → Bytes
shift_block key block = map (λ b. b + 1) block

abbrev unshift_block : Bytes → Bytes → Bytes
unshift_block key block = map (λ b. b - 1) block

unshift-shift : (key block : Bytes) → unshift_block key (shift_block key block) ≡ block
unshift-shift key [] = refl
unshift-shift key (b ∷ block) =
    let e : b + 1 - 1 ≡ b = omega arith in ap₂ ◌∷◌ e (unshift-shift key block)

abbrev same_bytes : Bytes → Bytes
same_bytes s = s

abbrev to_vec : Value → Option Bytes
to_vec value = some (codes "null")

abbrev session_key : Bytes
session_key = codes "0123456789abcdef0123456789abcdef"

encrypt_message_lem_example :
    (16 ≤ length session_key
      → (blocks : List Bytes) × (Padded (codes "null") blocks)
        × (encrypt_message shift_block same_bytes to_vec null session_key
            ≡ some (same_bytes (join (map (shift_block (take 16 session_key)) blocks))))
        × (map
              (unshift_block (take 16 session_key))
              (map (shift_block (take 16 session_key)) blocks)
            ≡ blocks))
    × (length session_key < 16
        → encrypt_message shift_block same_bytes to_vec null session_key ≡ none)
encrypt_message_lem_example =
    encrypt_message_lem shift_block unshift_block same_bytes to_vec null session_key (codes "null")
      (λ k b l. unshift-shift k b) refl
