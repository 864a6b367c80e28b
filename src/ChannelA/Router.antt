-- ===== src/ChannelA/Router.antt =====
-- The routes and the session gate of src/channel_a/mod.rs. The tap and its buffering, which are
-- compiled for traces only, are left out; the page's handlers are those of Web.
pub mod Gate
use noobscenic.Prelude.{
  ℕ, Bytes, Bool, true, false, List, [], ◌∷◌, ◌++◌, Option, none, some, codes, text_eq, starts_with,
  any, ◌&&◌, ◌||◌, length, ◌==◌, not, if◌then◌else◌, find_first, is_some,
}
use noobscenic.ChannelA.Credentials.{Credential, valid, absent, stale, check}
use noobscenic.ChannelA.Form.{get_field}
use noobscenic.ChannelA.Multipart.{split_on}
use noobscenic.ChannelA.Server.{Server, Settings, Externals, Request, Answer, done, body_of}
use noobscenic.ChannelA.Handlers.{
  register, sock_addr, transition, binding_path, unbinding_path, sync, version_check, upload_events,
  response,
}
use noobscenic.ChannelA.Uploads.{upload_raw}
use noobscenic.Db.Events.{Event, insert_row}

pub data Target : Type 0 where
  registering addresses syncing events responding raw index : Target
  bind_change : Bytes → Bool → Target

abbrev pub get_only : List Bytes
get_only = codes "GET" ∷ codes "HEAD" ∷ []

abbrev pub post_only : List Bytes
post_only = codes "POST" ∷ []

-- A path with its methods and its handler.
abbrev pub routes : List (Bytes × (List Bytes × Target))
routes =
    (codes "/", (get_only, index))
    ∷ (codes "/cleanPack/register", (post_only, registering))
    ∷ (codes "/cleanPack/getSockAddr", (get_only ++ post_only, addresses))
    ∷ (codes "/cleanPack/binding", (post_only, bind_change binding_path true))
    ∷ (codes "/cleanPack/unbinding", (post_only, bind_change unbinding_path false))
    ∷ (codes "//cleanPack/unbinding", (post_only, bind_change unbinding_path false))
    ∷ (codes "/cleanPack/sync", (post_only, syncing))
    ∷ (codes "/cleanPack/uploadEvents", (post_only, events))
    ∷ (codes "/cleanPack/response", (post_only, responding))
    ∷ (codes "/cleanPack/uploadLogs", (post_only, raw))
    ∷ (codes "/cleanPack/uploadStats", (post_only, raw))
    ∷ (codes "/cleanPack/uploadSingle", (post_only, raw))
    ∷ []

-- The routes of the page; `{}` stands for a parameter.
abbrev pub page_routes : List Bytes
page_routes =
    codes "/favicon.ico"
    ∷ codes "/favicon.png"
    ∷ codes "/manifest.webmanifest"
    ∷ codes "/api/robots"
    ∷ codes "/api/commands"
    ∷ codes "/api/robot/{}/summary"
    ∷ codes "/api/robot/{}/map"
    ∷ codes "/api/robot/{}/path"
    ∷ codes "/api/robot/{}/command"
    ∷ codes "/api/robot/{}/control"
    ∷ codes "/api/robot/{}/zones"
    ∷ codes "/api/robot/{}/zones/refresh"
    ∷ codes "/api/robot/{}/zones/clean"
    ∷ codes "/api/robot/{}/spot"
    ∷ codes "/api/robot/{}/settings"
    ∷ codes "/api/robot/{}/config"
    ∷ codes "/api/robot/{}/goods"
    ∷ codes "/api/robot/{}/goods/refresh"
    ∷ codes "/api/robot/{}/goods/reset"
    ∷ codes "/api/robot/{}/device-info"
    ∷ codes "/api/robot/{}/device-info/refresh"
    ∷ codes "/api/robot/{}/reboot"
    ∷ codes "/api/robot/{}/map/delete"
    ∷ codes "/api/robot/{}/backup"
    ∷ codes "/backup/{}/{}"
    ∷ []

-- A parameter matches one segment that is not empty.
unfoldable pub matches : List Bytes → List Bytes → Bool
matches [] [] = true
matches (p ∷ ps) (s ∷ ss) =
    (if text_eq p (codes "{}") then not (length s == 0) else text_eq p s) && matches ps ss
matches _ _ = false

unfoldable pub is_page : Bytes → Bool
unfolding matches
is_page path = any (λ p. matches (split_on b'/' p) (split_on b'/' path)) page_routes

-- The paths that pass without a session.
unfoldable pub is_open : Bytes → Bool
is_open path =
    text_eq path (codes "/cleanPack/register")
    || text_eq path (codes "/")
    || text_eq path (codes "/favicon.ico")
    || text_eq path (codes "/favicon.png")
    || text_eq path (codes "/manifest.webmanifest")
    || starts_with (codes "/backup/") path
    || starts_with (codes "/api/") path

module _ {F : Type 0} (g : Settings) (x : Externals F) where
  -- The row of `catch_all`, whose serial is NULL.
  unfoldable pub unknown_event : Request → Event
  unknown_event r = record {
    id = 0;
    sn = none;
    channel = codes "A";
    endpoint = some r.path;
    info_type = none;
    event_code = none;
    task_id = none;
    user_id = none;
    device_ts = none;
    payload = some (x.lossy (body_of r));
    trace_ref = r.trace_ref;
    received_ms = r.now;
  }

  unfoldable pub catch_all : Request → Server F → Server F × Answer
  unfolding unknown_event
  catch_all r s =
      let store = s.store in
      (
        record s { store = record store { events = insert_row (unknown_event r) store.events } },
        done,
      )

  -- `/` is the page, but for the device's version check.
  unfoldable pub index_of : Request → Server F → Server F × Answer
  index_of r s =
      if is_some (get_field (codes "version") r.query) || is_some (get_field (codes "sn") r.query)
      then version_check g x r s
      else (s, Answer.page)

  unfoldable pub handle : Target → Request → Server F → Server F × Answer
  unfolding index_of
  handle registering r s = register g x r s
  handle addresses r s = sock_addr g x r s
  handle syncing r s = sync g x r s
  handle events r s = upload_events g x r s
  handle responding r s = response g x r s
  handle raw r s = upload_raw g x r s
  handle index r s = index_of r s
  handle (bind_change endpoint bind) r s = transition g x endpoint bind r s

  -- A path that has no route is answered by `catch_all`, another method of one by the status 405.
  unfoldable pub chosen :
      Option (Bytes × (List Bytes × Target)) → Request → Server F → Server F × Answer
  unfolding handle catch_all is_page
  chosen none r s = if is_page r.path then (s, Answer.page) else catch_all r s
  chosen (some (path, (methods, target))) r s =
      if any (λ m. text_eq m r.method) methods then handle target r s else (s, Answer.not_allowed)

  unfoldable pub route : Request → Server F → Server F × Answer
  unfolding chosen
  route r s = chosen (find_first (λ entry. text_eq entry.0 r.path) routes) r s

  -- `cookie_gate`, by what the check of the credentials found.
  unfoldable pub admit : Credential → Request → Server F → Server F × Answer
  unfolding route
  admit (valid sn) r s = route r s
  admit absent r s = route r s
  admit stale r s = (s, Answer.sid_expired)

  unfoldable pub serve : Request → Server F → Server F × Answer
  unfolding admit is_open
  serve r s =
      if is_open r.path
      then route r s
      else let c = check x.to_str r.cookie g.session_ttl_secs r.now s.sessions in
        admit c.1 r (record s { sessions = c.0 })
