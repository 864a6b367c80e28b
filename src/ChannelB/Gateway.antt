-- ===== src/ChannelB/Gateway.antt =====
-- The live connections of the gateway and the registry that they share, src/channel_b/mod.rs:
-- every interleaving of the connection tasks is a sequence of these steps.
pub mod Owners
pub mod Addressing
use noobscenic.Prelude.{ℕ, suc, ℤ, ◌≡◌, Bytes, Option, none, some, ◌==◌, if◌then◌else◌}
use noobscenic.Json.{Value}
use noobscenic.ChannelB.Registry
use noobscenic.ChannelB.Registry.{Registry, drop_registration}
use noobscenic.ChannelB.Conn.{Settings, Conn, open_conn, handle_value}

pub record Gateway : Type 0 where
  pub registry : Registry
  pub conns : ℕ → Option Conn
  -- `NEXT_CONN_ID`
  pub next_id : ℕ

abbrev pub init : Gateway
init = record { registry = Registry.new; conns = λ id. none; next_id = 1 }

abbrev pub assign : (ℕ → Option Conn) → ℕ → Option Conn → ℕ → Option Conn
assign conns id c j = if id == j then c else conns j

-- `listener.accept()`: a task with a number of its own.
unfoldable pub accept : Gateway → Bytes → ℤ → Gateway
accept g peer now = record g {
  conns = assign g.conns g.next_id (some (open_conn g.next_id peer now));
  next_id = suc g.next_id;
}

-- Connection `id`, in state `c`, handles a frame.
unfoldable pub receive : Gateway → Settings → ℕ → Conn → Option Bytes → Value → ℤ → Gateway
receive g s id c trace value now =
    let handled = handle_value s g.registry c trace value now in
    record g { registry = handled.0; conns = assign g.conns id (some handled.1) }

-- The task of connection `id` ends, for whatever reason, and its guard is dropped.
unfoldable pub close : Gateway → ℕ → Conn → Gateway
close g id c = record g {
  registry = drop_registration c.registration g.registry;
  conns = assign g.conns id none;
}

pub data Step (g : Gateway) : Gateway → Type 0 where
  accepts : {u : Gateway} (peer : Bytes) (now : ℤ) → u ≡ accept g peer now → Step g u
  receives :
      {u : Gateway} (s : Settings) (id : ℕ) (c : Conn) (trace : Option Bytes) (value : Value)
      (now : ℤ)
      → g.conns id ≡ some c
      → u ≡ receive g s id c trace value now
      → Step g u
  closes : {u : Gateway} (id : ℕ) (c : Conn) → g.conns id ≡ some c → u ≡ close g id c → Step g u

pub data Reach (g : Gateway) : Gateway → Type 0 where
  here : Reach g g
  next : {t u : Gateway} → Reach g t → Step t u → Reach g u
