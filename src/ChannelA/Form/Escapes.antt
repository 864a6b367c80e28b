-- ===== src/ChannelA/Form/Escapes.antt =====
-- Percent escapes and the `data` member of src/channel_a/form.rs.
use noobscenic.Prelude.{◌/◌, ◌%◌, Bytes, [], ◌∷◌}
use noobscenic.ChannelA.Register.{digit}

-- Every byte as an escape.
abbrev pub escaped : Bytes → Bytes
escaped [] = []
escaped (b ∷ s) = b'%' ∷ digit (b / 16) ∷ digit (b % 16) ∷ escaped s
