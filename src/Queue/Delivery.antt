-- ===== src/Queue/Delivery.antt =====
-- Which frames the loop over the claimed commands of src/commands.rs hands to the connection.
use noobscenic.Prelude.{
  ℕ, ℤ, Bytes, Bool, true, false, List, [], ◌∷◌, ◌++◌, Option, ◌⊎◌, if◌then◌else◌, ◌≡◌, refl, sym,
  ◌∙◌, append-nil, append_assoc,
}
use noobscenic.Json.{Value}
use noobscenic.ChannelB.Registry.{ConnHandle, Outbound, command}
use noobscenic.Db.Commands.{QueuedCommand}
use noobscenic.Queue.{Config, World, Framed, framed, refused, hand_over, frame_of, push, push_all}

-- The frame of a command with its row, before those of the commands behind it.
abbrev pub with_frame :
    ConnHandle → QueuedCommand → Framed → List (ℕ × Outbound) → List (ℕ × Outbound)
with_frame h c (refused error) rest = rest
with_frame h c (framed frame) rest = (h.conn_id, command c.id frame) ∷ rest

module _ (from_str : Bytes → Bytes ⊎ Value) (encrypt : Value → Bytes → Option Bytes)
    (is_open : ℕ → Bool) (returning : List QueuedCommand → List QueuedCommand) where
  -- The frames of the commands that can be framed, in the order of the commands.
  unfoldable pub frames_of :
      Config → Option Bytes → ℤ → ConnHandle → List QueuedCommand → List (ℕ × Outbound)
  frames_of cfg key now h [] = []
  frames_of cfg key now h (c ∷ cs) =
      with_frame h c (frame_of from_str encrypt is_open returning cfg key now c)
        (frames_of cfg key now h cs)

  -- On a live connection the commands that can be framed are handed over in their order, each once
  -- and with its row, and nothing else is; on a connection whose writer is gone nothing is handed
  -- over.
  pub sent-push_all :
      (cfg : Config) (key : Option Bytes) (now : ℤ) (h : ConnHandle) (cs : List QueuedCommand)
      (w : World)
      → (is_open h.conn_id ≡ true
          → (push_all from_str encrypt is_open returning cfg key now h cs w).sent
            ≡ w.sent ++ frames_of cfg key now h cs)
        × (is_open h.conn_id ≡ false
            → (push_all from_str encrypt is_open returning cfg key now h cs w).sent ≡ w.sent)
  unfolding push_all push hand_over frames_of
  sent-push_all cfg key now h [] w = (λ e. sym (append-nil w.sent), λ e. refl)
  sent-push_all cfg key now h (c ∷ cs) w =
      let go : (w : World) → Sent cs w = λ w. sent-push_all cfg key now h cs w in
      step go (frame_of from_str encrypt is_open returning cfg key now c)
    where
      Sent : List QueuedCommand → World → Type 0
      Sent cs w =
          (is_open h.conn_id ≡ true
            → (push_all from_str encrypt is_open returning cfg key now h cs w).sent
              ≡ w.sent ++ frames_of cfg key now h cs)
          × (is_open h.conn_id ≡ false
              → (push_all from_str encrypt is_open returning cfg key now h cs w).sent ≡ w.sent)

      step :
          ((w : World) → Sent cs w)
          → (f : Framed)
          → (is_open h.conn_id ≡ true
              → (push_all from_str encrypt is_open returning cfg key now h cs
                  (hand_over cfg.history is_open h c f w)).sent
                ≡ w.sent ++ with_frame h c f (frames_of cfg key now h cs))
            × (is_open h.conn_id ≡ false
                → (push_all from_str encrypt is_open returning cfg key now h cs
                    (hand_over cfg.history is_open h c f w)).sent
                  ≡ w.sent)
      step go (refused error) = go _
      step go (framed frame) = (
        λ e. rw (e, if◌then◌else◌) ((go _).0 e ∙ append_assoc w.sent _ _),
        λ e. rw (e, if◌then◌else◌) ((go _).1 e),
      )
