-- ===== src/Web/Recovery/Rows.antt =====
-- What the loop over the devices without an account does to each row, of src/web.rs.
use noobscenic.Prelude.{
  ℤ, Bytes, Bool, true, false, List, [], ◌∷◌, Option, none, some, text_eq, text_iff, ◌&&◌, is_some,
  if◌then◌else◌, map, In, inl, inr, ◌⊎◌, All, Bool-cases, Option-cases, ◌≡◌, refl, ap, ap₂, sym,
  ◌∙◌, arith,
}
use noobscenic.Db.Commands.Sns.{insert_sn-new, insert_sn-old, All-insert_sn}
use noobscenic.Db.Devices.{Device, Devices, bound, is_adoptable, adopt_bind, unbound_devices}
use noobscenic.Db.Rows.{update_where}
use noobscenic.Web.Recovery.{Latest, get_bind, account_of, recover}

pub map_cong :
    (f g : Device → Device) (t : Devices) → ((r : Device) → In r t → f r ≡ g r) → map f t ≡ map g t
map_cong f g [] h = refl
map_cong f g (r ∷ t) h = ap₂ (λ a u. a ∷ u) (h r (inl refl)) (map_cong f g t (λ s m. h s (inr m)))

pub map_same : (f : Device → Device) (t : Devices) → ((r : Device) → In r t → f r ≡ r) → map f t ≡ t
map_same f [] h = refl
map_same f (r ∷ t) h = ap₂ (λ a u. a ∷ u) (h r (inl refl)) (map_same f t (λ s m. h s (inr m)))

pub map_map : (f g : Device → Device) (t : Devices) → map f (map g t) ≡ map (λ r. f (g r)) t
map_map f g [] = refl
map_map f g (r ∷ t) = ap (λ u. f (g r) ∷ u) (map_map f g t)

-- A device with the account that it is given, where it has none.
abbrev pub recovered : (Bytes → Option (Bytes × ℤ)) → Device → Device
recovered account d = if is_some d.bind_user then d else elim (account d.sn) [
  | none ↦ d
  | some (user, received_ms) ↦ record d {
    bind_user = some user;
    bind_state = bound;
    bound_ms = some received_ms;
  }
]

-- One round of the loop, on one row.
step : (Bytes → Option (Bytes × ℤ)) → Bytes → Device → Device
step account sn d = if text_eq d.sn sn then recovered account d else d

steps : (Bytes → Option (Bytes × ℤ)) → List Bytes → Device → Device
steps account [] d = d
steps account (sn ∷ sns) d = steps account sns (step account sn d)

unfoldable pub accounts : Latest → Bytes → Option (Bytes × ℤ)
accounts l sn = account_of (get_bind sn l)

update_where-map :
    (p : Device → Bool) (f : Device → Device) (t : Devices)
    → update_where p f t ≡ map (λ r. if p r then f r else r) t
unfolding update_where
update_where-map p f [] = refl
update_where-map p f (r ∷ t) = ap (λ u. (if p r then f r else r) ∷ u) (update_where-map p f t)

-- A row that is adopted.
abbrev adopted_row : Bytes → ℤ → Device → Device
adopted_row user received_ms d = record d {
  bind_user = some user;
  bind_state = bound;
  bound_ms = some received_ms;
}

step-none :
    (account : Bytes → Option (Bytes × ℤ)) (sn : Bytes) (r : Device)
    → account sn ≡ none
    → step account sn r ≡ r
unfolding step
step-none account sn r e = elim (Bool-cases (text_eq r.sn sn)) [
  | inr k ↦ rw (k, if◌then◌else◌) refl
  | inl k ↦
      rw (k, if◌then◌else◌)
        (given (account r.sn) (is_some r.bind_user) (ap account ((text_iff r.sn sn).0 k) ∙ e))
]
  where
    given :
        (o : Option (Bytes × ℤ)) (b : Bool)
        → o ≡ none
        → (if b then r else elim o [ none ↦ r | some (user, ms) ↦ adopted_row user ms r ]) ≡ r
    given none true q = refl
    given none false q = refl
    given (some a) b q = absurd (cc)

step-some :
    (account : Bytes → Option (Bytes × ℤ)) (sn user : Bytes) (ms : ℤ) (r : Device)
    → account sn ≡ some (user, ms)
    → (if is_adoptable sn r then adopted_row user ms r else r) ≡ step account sn r
unfolding step is_adoptable
step-some account sn user ms r e = elim (Bool-cases (text_eq r.sn sn)) [
  | inr k ↦ rw (k, ◌&&◌, if◌then◌else◌) refl
  | inl k ↦ elim (Bool-cases (is_some r.bind_user)) [
    | inl b ↦ rw (k, b, if◌then◌else◌) refl
    | inr b ↦ rw (k, b, if◌then◌else◌, ap account ((text_iff r.sn sn).0 k), e) refl
  ]
]

recover-map :
    (sns : List Bytes) (l : Latest) (d : Devices)
    → (recover sns l d).0 ≡ map (steps (accounts l) sns) d
unfolding recover steps accounts adopt_bind
recover-map [] l d = sym (map_same (λ r. r) d (λ r m. refl))
recover-map (sn ∷ sns) l d = elim (Option-cases (account_of (get_bind sn l))) [
  | inl e ↦
      rw (e, recover)
        (recover-map sns l d
          ∙ map_cong _ _ d
              (λ r m. ap (steps (accounts l) sns) (sym (step-none (accounts l) sn r e))))
  | inr ((user, ms), e) ↦
      rw (e, recover)
        (recover-map sns l (adopt_bind sn user ms d).0
          ∙ ap (map (steps (accounts l) sns))
              (update_where-map (is_adoptable sn) (adopted_row user ms) d)
          ∙ map_map (steps (accounts l) sns) _ d
          ∙ map_cong _ _ d
              (λ r m. ap (steps (accounts l) sns) (step-some (accounts l) sn user ms r e)))
]

pub recovered_idem :
    (account : Bytes → Option (Bytes × ℤ)) (r : Device)
    → recovered account (recovered account r) ≡ recovered account r
recovered_idem account r = elim (Bool-cases (is_some r.bind_user)) [
  | inl b ↦
      let same : recovered account r ≡ r = rw (b, if◌then◌else◌) refl in ap (recovered account) same
  | inr b ↦ elim (Option-cases (account r.sn)) [
    | inl e ↦
        let same : recovered account r ≡ r = rw (b, if◌then◌else◌, e) refl in
        ap (recovered account) same
    | inr (a, e) ↦ rw (b, if◌then◌else◌, e) refl
  ]
]

-- A device that still has no account had none to be given.
unrecovered :
    (account : Bytes → Option (Bytes × ℤ)) (r : Device)
    → is_some (recovered account r).bind_user ≡ false
    → account (recovered account r).sn ≡ none
unrecovered account r h = elim (Bool-cases (is_some r.bind_user)) [
  | inl b ↦ let k = rw (b, if◌then◌else◌, b) at h in absurd (cc)
  | inr b ↦ elim (Option-cases (account r.sn)) [
    | inl e ↦ rw (b, if◌then◌else◌, e) e
    | inr (a, e) ↦ let k = rw (b, if◌then◌else◌, e) at h in absurd (cc)
  ]
]

steps_fixed :
    (account : Bytes → Option (Bytes × ℤ)) (sns : List Bytes) (q : Device)
    → recovered account q ≡ q
    → steps account sns q ≡ q
unfolding steps step
steps_fixed account [] q h = refl
steps_fixed account (sn ∷ sns) q h =
    let same : step account sn q ≡ q = elim (Bool-cases (text_eq q.sn sn)) [
      | inl k ↦ rw (step, k, if◌then◌else◌) h
      | inr k ↦ rw (step, k, if◌then◌else◌) refl
    ] in
    ap (steps account sns) same ∙ steps_fixed account sns q h

steps-recovered :
    (account : Bytes → Option (Bytes × ℤ)) (sns : List Bytes) (r : Device)
    → In r.sn sns
    → steps account sns r ≡ recovered account r
unfolding steps step
steps-recovered account [] r m = absurd m
steps-recovered account (sn ∷ sns) r m = elim (Bool-cases (text_eq r.sn sn)) [
  | inl k ↦
      let same : step account sn r ≡ recovered account r = rw (step, k, if◌then◌else◌) refl in
      ap (steps account sns) same
      ∙ steps_fixed account sns (recovered account r) (recovered_idem account r)
  | inr k ↦
      let same : step account sn r ≡ r = rw (step, k, if◌then◌else◌) refl in
      ap (steps account sns) same ∙ steps-recovered account sns r (behind m k)
]
  where
    behind : (sn ≡ r.sn) ⊎ In r.sn sns → text_eq r.sn sn ≡ false → In r.sn sns
    behind (inl e) k = absurd (ground (arith, text_iff r.sn sn, e))
    behind (inr m) k = m

unbound_devices-In :
    (d : Devices) (r : Device) → In r d → is_some r.bind_user ≡ false → In r.sn (unbound_devices d)
unfolding unbound_devices
unbound_devices-In [] r m b = absurd m
unbound_devices-In (q ∷ d) r (inl e) b =
    rw (e, b, if◌then◌else◌) (insert_sn-new r.sn (unbound_devices d))
unbound_devices-In (q ∷ d) r (inr m) b =
    let rest = unbound_devices-In d r m b in
    elim (Bool-cases (is_some q.bind_user)) [
      | inl k ↦ rw (k, if◌then◌else◌) rest
      | inr k ↦ rw (k, if◌then◌else◌) (insert_sn-old q.sn r.sn (unbound_devices d) rest)
    ]

pub recover_all :
    (l : Latest) (d : Devices)
    → (recover (unbound_devices d) l d).0 ≡ map (recovered (accounts l)) d
recover_all l d = recover-map (unbound_devices d) l d ∙ map_cong _ _ d (λ r m. one r m)
  where
    one :
        (r : Device) → In r d → steps (accounts l) (unbound_devices d) r ≡ recovered (accounts l) r
    one r m = elim (Bool-cases (is_some r.bind_user)) [
      | inl b ↦
          let same : recovered (accounts l) r ≡ r = rw (b, if◌then◌else◌) refl in
          steps_fixed (accounts l) (unbound_devices d) r same ∙ sym same
      | inr b ↦ steps-recovered (accounts l) (unbound_devices d) r (unbound_devices-In d r m b)
    ]

-- Nobody is left to recover.
pub unbound-recovered :
    (account : Bytes → Option (Bytes × ℤ)) (d : Devices)
    → All (λ sn. account sn ≡ none) (unbound_devices (map (recovered account) d))
unfolding unbound_devices
unbound-recovered account [] = tt
unbound-recovered account (r ∷ d) =
    let rest = unbound-recovered account d in
    let q = recovered account r in
    elim (Bool-cases (is_some q.bind_user)) [
      | inl k ↦ rw (k, if◌then◌else◌) rest
      | inr k ↦
          rw (k, if◌then◌else◌)
            (All-insert_sn (λ sn. account sn ≡ none) q.sn _ (unrecovered account r k) rest)
    ]

pub recover-none :
    (sns : List Bytes) (l : Latest) (d : Devices)
    → All (λ sn. accounts l sn ≡ none) sns
    → recover sns l d ≡ (d, 0)
unfolding recover accounts
recover-none [] l d all = refl
recover-none (sn ∷ sns) l d all = rw (all.0, recover) (recover-none sns l d all.1)
