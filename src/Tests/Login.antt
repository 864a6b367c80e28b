-- ===== src/Tests/Login.antt =====
-- A device registers, uses its cookie and binds: src/session.rs and src/channel_a/handlers at
-- concrete inputs, and the form bodies it sends.
use noobscenic.Prelude.{
  find_first, ◌-ℤ◌, pos, Bytes, true, List, [], ◌∷◌, Option, none, some, ◌≡◌, refl, codes, text_eq,
  replicate, any, if◌then◌else◌,
}
use noobscenic.Db.Sessions.{Session, Sessions, insert_session, find_session, is_live}
use noobscenic.Db.Devices.{Devices, adopted}
use noobscenic.ChannelA.Credentials.{is_over}
use noobscenic.ChannelA.Register.{Minted, hex_of, mint, minted, attempts}
use noobscenic.Json.{Value, null}
use noobscenic.ChannelA.Form.{
  hex, escape, decode_bytes, split_once, ends, first_parsed, split_data, percent_decode, parse_data,
  parse_from, parse,
}

abbrev old : Session
old = record {
  id = 2;
  sn = codes "A";
  session_key = codes "k1";
  cookie = codes "c1";
  sig_raw = none;
  created_ms = pos 1000;
  last_used_ms = none;
  revoked_ms = none;
}

abbrev sessions : Sessions
sessions = old ∷ []

abbrev random : List (Bytes × Bytes)
random = (replicate 16 7, replicate 16 9) ∷ []

abbrev fresh : Minted
fresh = mint (replicate 16 7, replicate 16 9)

fresh-attempts : (attempts true (codes "A") none (pos 2000) random sessions).1 ≡ minted fresh
unfolding attempts insert_session any text_eq hex_of
fresh-attempts = refl

abbrev visible : Bytes → Option Bytes
visible raw = some raw

old_session : find_session (codes "c1") sessions ≡ some (codes "A", pos 1000)
unfolding find_session find_first is_live text_eq
old_session = refl

past_time : is_over (some 1) (pos 1000) (pos 5000) ≡ true
unfolding is_over ◌-ℤ◌
past_time = refl

abbrev devices : Devices
devices = adopted (codes "B") (pos 1) ∷ []

malformed : decode_bytes (codes "100%") ≡ codes "100%"
unfolding decode_bytes
malformed = refl

-- A parser that takes one text, and a decoding that keeps bytes.
abbrev one_text : Bytes → Option Value
one_text text = if text_eq text (codes "{}") then some null else none

abbrev kept : Bytes → Bytes
kept text = text

data_first : parse one_text kept (codes "data={}&sn=A%41") ≡ record {
  fields = (codes "sn", codes "AA") ∷ [];
  data_raw = some (codes "{}");
  parsed_data = some null;
}
unfolding parse parse_from split_once split_data ends first_parsed parse_data percent_decode
    decode_bytes hex escape text_eq
data_first = refl

-- The prefix of the text that is taken is the shortest that parses, though a longer one parses too.
abbrev two_texts : Bytes → Option Value
two_texts text =
    if text_eq text (codes "\"\"")
    then some null
    else if text_eq text (codes "\"%22&\"")
    then some null
    else none

shortest_prefix : split_data two_texts kept (codes "\"%22&\"") ≡ some (codes "\"%22", null, 4)
unfolding split_data ends first_parsed parse_data percent_decode decode_bytes hex escape text_eq
shortest_prefix = refl
