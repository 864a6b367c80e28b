-- ===== src/ChannelA/Handlers.antt =====
-- The handlers of src/channel_a/handlers. Failures of the database, which they log, are left out.
use noobscenic.Prelude.{
  ℕ, ◌*◌, zero, suc, ℤ, pos, ◌-ℤ◌, Bytes, Bool, List, [], ◌∷◌, ◌++◌, Option, none, some, codes,
  unwrap_or, or_else, ◌>>=◌, leb, ◌&&◌, if◌then◌else◌,
}
use noobscenic.Json
use noobscenic.Json.{Value, Fields, Items, null, obj, end, field, str, int, arr, nil, cons}
use noobscenic.ChannelA.Form.{Form, get_field}
use noobscenic.ChannelA.Register
use noobscenic.ChannelA.Register.{hex_of}
use noobscenic.ChannelA.Server.{
  Server, AdvertisedAddr, Settings, Externals, Request, Answer, done, form_of, get_i64,
}
use noobscenic.Db.Commands.{ack_command}
use noobscenic.Db.Devices
use noobscenic.Db.Devices.{Attributes, upsert_device_sync, upsert_device_seen}
use noobscenic.Db.Events.{Event, insert_event}
use noobscenic.Proto.Dispatch.{dispatch}
use noobscenic.Proto.Incoming.{Incoming}

abbrev pub binding_path : Bytes
binding_path = codes "/cleanPack/binding"

abbrev pub unbinding_path : Bytes
unbinding_path = codes "/cleanPack/unbinding"

-- `.filter(|sn| !sn.is_empty())`
abbrev pub non_empty : Option Bytes → Option Bytes
non_empty none = none
non_empty (some []) = none
non_empty (some (c ∷ s)) = some (c ∷ s)

-- An optional text as JSON.
abbrev pub optional : Option Bytes → Value
optional none = null
optional (some s) = str s

abbrev pub param : Bytes → Form → Option Bytes
param key form = get_field key form.fields

-- `chars().take(n)` on the UTF-8 bytes.
unfoldable pub take_chars : ℕ → Bytes → Bytes
take_chars n [] = []
take_chars zero (c ∷ s) = if leb 128 c && leb c 191 then c ∷ take_chars zero s else []
take_chars (suc n) (c ∷ s) =
    let same = take_chars (suc n) s in
    let next = take_chars n s in if leb 128 c && leb c 191 then c ∷ same else c ∷ next

module _ {F : Type 0} (g : Settings) (x : Externals F) where
  -- The fields that `transition` stores, in key order.
  abbrev pub bind_fields : Bytes → Option Bytes → Option Bytes → Value
  bind_fields sn device_ts user_id = obj (
      field (codes "sn") (str sn)
        (field (codes "ts") (optional device_ts) (field (codes "userId") (optional user_id) end)))

  unfoldable pub bind_event : Bytes → Bytes → Option Bytes → Option Bytes → Request → Event
  bind_event sn endpoint device_ts user_id r = record {
    id = 0;
    sn = some sn;
    channel = codes "A";
    endpoint = some endpoint;
    info_type = none;
    event_code = none;
    task_id = none;
    user_id = user_id;
    device_ts = device_ts;
    payload = some (x.to_text (bind_fields sn device_ts user_id));
    trace_ref = r.trace_ref;
    received_ms = r.now;
  }

  -- `transition`, behind the test of the serial.
  unfoldable pub change_bind : Bytes → Bool → Bytes → Form → Request → Server F → Server F
  unfolding bind_event
  change_bind endpoint bind sn form r s =
      let user_id = param (codes "userId") form in
      let e = bind_event sn endpoint (param (codes "ts") form) user_id r in
      let store = s.store in
      record s {
        devices = Devices.transition sn bind user_id r.now s.devices;
        store = record store { events = insert_event g.history sn e store.events };
      }

  unfoldable pub transition : Bytes → Bool → Request → Server F → Server F × Answer
  unfolding change_bind
  transition endpoint bind r s =
      let form = form_of x r in
      elim (non_empty (param (codes "sn") form)) [
        | none ↦ (s, done)
        | some sn ↦ (change_bind endpoint bind sn form r s, done)
      ]

  unfoldable pub attributes_of : Form → Attributes
  unfolding get_i64
  attributes_of form = record {
    company_id = get_i64 x (codes "companyId") form;
    mcu_ver = param (codes "mcuVer") form;
    app_version = param (codes "version") form;
    version_code = get_i64 x (codes "versionCode") form;
    git_sha = param (codes "gitSha") form;
    cloud = param (codes "cloud") form;
  }

  unfoldable pub sync : Request → Server F → Server F × Answer
  unfolding attributes_of
  sync r s =
      let form = form_of x r in
      elim (non_empty (param (codes "sn") form)) [
        | none ↦ (s, Answer.no_update)
        | some sn ↦ (
          record s { devices = upsert_device_sync sn (attributes_of form) r.now s.devices },
          Answer.no_update,
        )
      ]

  unfoldable pub version_check : Request → Server F → Server F × Answer
  version_check r s = elim (non_empty (get_field (codes "sn") r.query)) [
    | none ↦ (s, Answer.no_update)
    | some sn ↦
        (record s { devices = upsert_device_seen sn none r.now s.devices }, Answer.no_update)
  ]

  abbrev pub to_addresses : List AdvertisedAddr → Items
  to_addresses [] = nil
  to_addresses (a ∷ more) =
      cons (obj (field (codes "ip") (str a.ip) (field (codes "port") (int (pos a.port)) end)))
        (to_addresses more)

  -- The configured addresses, or the local one.
  unfoldable pub advertised : Option Bytes → List AdvertisedAddr
  advertised local_ip = elim g.advertise [
    | some list ↦ list
    | none ↦ elim local_ip [ none ↦ [] | some ip ↦ record { ip = ip; port = g.gateway_port } ∷ [] ]
  ]

  unfoldable pub sock_addr : Request → Server F → Server F × Answer
  unfolding advertised
  sock_addr r s =
      let list = arr (to_addresses (advertised r.local_ip)) in
      (s, Answer.ok (obj (field (codes "addr_list") list end)))

  abbrev pub part_of : Bytes → Value → Value
  part_of key message = unwrap_or null (Json.get key message)

  -- The `Incoming` of a message that came by HTTP.
  unfoldable pub incoming :
      Bytes → Bytes → Option ℤ → Option ℤ → Option Bytes → Form → Value → Request → Incoming
  incoming endpoint sn info_type event device_ts form message r = record {
    sn = sn;
    channel = codes "A";
    endpoint = some endpoint;
    trace_ref = r.trace_ref;
    info_type = info_type;
    payload = part_of (codes "data") message;
    event = event;
    task_id = param (codes "taskid") form;
    device_ts = device_ts;
    user_id = param (codes "userId") form;
  }

  unfoldable pub dispatched : Incoming → Request → Server F → Server F
  dispatched m r s = record s { store = dispatch g.history x.libraries r.now m s.store }

  abbrev pub type_of : Value → Option ℤ
  type_of message = Json.get (codes "infoType") message >>= Json.as_i64

  unfoldable pub upload_events : Request → Server F → Server F × Answer
  unfolding incoming dispatched get_i64
  upload_events r s =
      let form = form_of x r in
      elim form.parsed_data [
        | none ↦ (s, done)
        | some message ↦
            let sn = unwrap_or [] (param (codes "sn") form) in
            let m =
              incoming (codes "/cleanPack/uploadEvents") sn (type_of message)
                (get_i64 x (codes "event") form)
                (or_else (param (codes "ts") form) (param (codes "createtime") form)) form message
                r in
            (dispatched m r s, done)
      ]

  -- `ack_command`, where the message has a type.
  unfoldable pub acknowledge : Bytes → Option ℤ → Value → Request → Server F → Server F
  acknowledge sn none message r s = s
  acknowledge sn (some info_type) message r s = record s {
    commands =
        (ack_command g.history sn info_type (x.to_text message) r.now
          (r.now -ℤ pos (g.command_ttl_secs * 1000)) s.commands).0;
  }

  unfoldable pub response_to : Form → Value → Request → Server F → Server F
  unfolding incoming dispatched acknowledge get_i64
  response_to form message r s =
      let sn = unwrap_or [] (param (codes "sn") form) in
      let info_type = or_else (type_of message) (get_i64 x (codes "infoType") form) in
      let m =
        incoming (codes "/cleanPack/response") sn info_type none (param (codes "ts") form) form
          message r in
      dispatched m r (acknowledge sn info_type message r s)

  unfoldable pub response : Request → Server F → Server F × Answer
  unfolding response_to
  response r s =
      let form = form_of x r in
      elim form.parsed_data [
        | none ↦ (s, done)
        | some message ↦ (response_to form message r s, done)
      ]

  unfoldable pub register : Request → Server F → Server F × Answer
  register r s =
      let form = form_of x r in
      let q =
        Register.register g.history g.accept_all (unwrap_or [] (param (codes "sn") form))
          (param (codes "ld_sn") form) (param (codes "sig") form) r.now r.minted
          (s.devices, s.sessions) in
      (record s { devices = q.0.0; sessions = q.0.1 }, Answer.registered q.1)

  -- `insert_upload_raw`, which does nothing without `debug-raw`.
  unfoldable pub insert_upload_raw : Option Bytes → Bytes → Fields → Request → Server F → Server F
  insert_upload_raw sn endpoint fields r s =
      if g.debug_raw
      then record s {
        uploads =
            s.uploads
            ++ record {
              sn = sn;
              endpoint = endpoint;
              fields_json = x.to_text (obj fields);
              trace_ref = r.trace_ref;
              received_ms = r.now;
            }
              ∷ [];
      }
      else s
