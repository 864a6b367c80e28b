-- ===== src/ChannelA/Router/Gate.antt =====
-- What the session gate lets through, of src/channel_a/mod.rs.
use noobscenic.Prelude.{
  Bytes, ◌++◌, codes, length, All, true, false, List, Option, none, some, text_eq, starts_with, any,
  find_first, if◌then◌else◌, ◌≡◌, ◌≢◌, ◌↔◌, ◌∙◌, subst, unwrap_or, [], refl, Bool-cases, inl, inr,
  ap, sym,
}
use noobscenic.ChannelA.Credentials.{Credential, valid, stale, check, is_over}
use noobscenic.ChannelA.Cookie.{cookies_prefix}
use noobscenic.ChannelA.Register.{Minted, Response, minted}
use noobscenic.ChannelA.Register.Login
use noobscenic.ChannelA.Form.{get_field}
use noobscenic.Db.Sessions.{Sessions}
use noobscenic.ChannelA.Server.{Server, Settings, Externals, Request, Answer, form_of}
use noobscenic.ChannelA.Handlers.{register}
use noobscenic.ChannelA.Router.{
  Target, registering, is_open, handle, routes, post_only, chosen, route, admit, serve,
}

module _ {F : Type 0} (g : Settings) (x : Externals F) where
  -- The session of a request, as the gate reads it.
  abbrev pub checked : Request → Server F → Credential × Sessions
  checked r s = let c = check x.to_str r.cookie g.session_ttl_secs r.now s.sessions in (c.1, c.0)

  -- What a request finds at the gate: it is told to register again exactly when its path needs a
  -- session and its cookie has none that is alive, and then no handler has run: only the session
  -- table was touched. A request for an open path is handed to its route on the state as it is, and
  -- any other that is not told on the state that the check of its cookie left.
  pub record IsGated (r : Request) (s : Server F) : Type 0 where
    pub told_iff :
        ((serve g x r s).1 ≡ Answer.sid_expired)
        ↔ ((is_open r.path ≡ false) × ((checked r s).0 ≡ stale))
    pub untouched :
        (serve g x r s).1 ≡ Answer.sid_expired
        → (serve g x r s).0 ≡ record s { sessions = (checked r s).1 }
    pub open_path : is_open r.path ≡ true → serve g x r s ≡ route g x r s
    pub handed :
        is_open r.path ≡ false
        → (checked r s).0 ≢ stale
        → serve g x r s ≡ route g x r (record s { sessions = (checked r s).1 })

  open_register :
      (path : Bytes)
      → path ≡ codes "/cleanPack/register"
      → (is_open path ≡ true)
        × (find_first (λ (entry : Bytes × (List Bytes × Target)). text_eq entry.0 path) routes
            ≡ some (codes "/cleanPack/register", (post_only, registering)))
  unfolding is_open find_first text_eq starts_with
  open_register path p = rw p (refl, refl)

  registering_found :
      (r : Request) (s : Server F)
      → r.path ≡ codes "/cleanPack/register"
      → serve g x r s ≡ (
          if any (λ m. text_eq m r.method) post_only
          then handle g x registering r s
          else (s, Answer.not_allowed))
  unfolding serve route chosen
  registering_found r s p = let (passes, found) = open_register r.path p in rw (passes, found) refl

  response_of : Answer → Option Response
  response_of (Answer.registered a) = some a
  response_of _ = none

  -- What a registration that was answered with a session leaves.
  registered-Live :
      (r : Request) (s : Server F) (m : Minted) (sn : Bytes)
      → r.path ≡ codes "/cleanPack/register"
      → (serve g x r s).1 ≡ Answer.registered (minted m)
      → All (λ e. length e.1 ≡ 16) r.minted
      → get_field (codes "sn") (form_of x r).fields ≡ some sn
      → Login.Live sn r.now (serve g x r s).0.sessions m
  unfolding handle register response_of
  registered-Live r s m sn p e l f =
      let at = registering_found r s p in
      elim (Bool-cases (any (λ m. text_eq m r.method) post_only)) [
        | inl k ↦
            let run : serve g x r s ≡ handle g x registering r s =
              at ∙ rw (k, if◌then◌else◌) refl in
            let named = sym (ap (λ q. q.1) run) ∙ e in
            let given = ap (λ a. unwrap_or (minted m) (response_of a)) named in
            let live =
              Login.register-Live g.history g.accept_all _ _ _ r.now r.minted
                (s.devices, s.sessions) m l given in
            rw run (
              subst (λ n. Login.Live n r.now (handle g x registering r s).0.sessions m)
                (ap (unwrap_or []) f) live)
        | inr k ↦
            let run : serve g x r s ≡ (s, Answer.not_allowed) = at ∙ rw (k, if◌then◌else◌) refl in
            let named = sym (ap (λ q. q.1) run) ∙ e in absurd (cc)
      ]

  -- A registration that was answered with a session lets the device in: as long as the session is
  -- within its time, a request that carries its cookie is valid for the device's serial and is
  -- handed to its route, behind no other request.
  pub serve-registered :
      (r q : Request) (s : Server F) (m : Minted) (sn header : Bytes)
      → r.path ≡ codes "/cleanPack/register"
      → (serve g x r s).1 ≡ Answer.registered (minted m)
      → All (λ e. length e.1 ≡ 16) r.minted
      → get_field (codes "sn") (form_of x r).fields ≡ some sn
      → q.cookie ≡ some header
      → x.to_str header ≡ some (cookies_prefix ++ m.cookie)
      → is_over g.session_ttl_secs r.now q.now ≡ false
      → is_open q.path ≡ false
      → let s' = (serve g x r s).0 in
        ((checked q s').0 ≡ valid sn)
        × (serve g x q s' ≡ route g x q (record s' { sessions = (checked q s').1 }))
  unfolding serve admit
  serve-registered r q s m sn header p e l f c t o i =
      let s' = (serve g x r s).0 in
      let live = registered-Live r s m sn p e l f in
      let found =
        Login.check-Live x.to_str g.session_ttl_secs header sn r.now q.now s'.sessions m live t o in
      let found' : (checked q s').0 ≡ valid sn = rw (c, found) refl in
      (found', rw (i, if◌then◌else◌, found') refl)
