-- ===== src/Web/Restore/Address.antt =====
-- The address in a restore command of src/web.rs, and the route of src/channel_a/mod.rs behind it.
use noobscenic.Prelude.{
  ℕ, ◌<◌, ◌/◌, ◌%◌, ◌==◌, Bytes, true, false, List, [], ◌∷◌, ◌++◌, codes, text_eq, length,
  if◌then◌else◌, ◌≡◌, ◌≢◌, refl, ◌∙◌, subst, arith, All, append-nil,
}
use noobscenic.ChannelA.Multipart.{split_on}
use noobscenic.ChannelA.Register.{digit, hex_of}
use noobscenic.Web.Restore.{Vault, is_word, down_url, backup_blob, download}

-- Letters, digits, '-' and '_', which stand for themselves in an address.
abbrev pub IsWord : Bytes → Type 0
IsWord = All (λ c. is_word c ≡ true)

split_on-IsWord :
    (s q p : Bytes) (ps : List Bytes)
    → IsWord s
    → split_on b'/' q ≡ p ∷ ps
    → split_on b'/' (s ++ q) ≡ (s ++ p) ∷ ps
unfolding split_on
split_on-IsWord [] q p ps w e = e
split_on-IsWord (c ∷ s) q p ps w e =
    let other : (c == b'/') ≡ false = let v = w.0 in ground arith in
    rw (split_on-IsWord s q p ps w.1 e, other, if◌then◌else◌) refl

split_on_slash :
    (q p : Bytes) (ps : List Bytes)
    → split_on b'/' q ≡ p ∷ ps
    → split_on b'/' (b'/' ∷ q) ≡ [] ∷ (p ∷ ps)
unfolding split_on
split_on_slash q p ps e = rw e refl

digit-is_word : (n : ℕ) → n < 16 → is_word (digit n) ≡ true
digit-is_word n l = ground arith

pub hex_of-IsWord : (s : Bytes) → All (λ b. b < 256) s → IsWord (hex_of s)
unfolding hex_of
hex_of-IsWord [] h = tt
hex_of-IsWord (b ∷ s) h = (
  digit-is_word (b / 16) (let l = h.0 in omega arith),
  (digit-is_word (b % 16) (omega arith), hex_of-IsWord s h.1),
)

abbrev page_of : Bytes → Bytes → Bytes
page_of sn token = codes "/backup/" ++ (sn ++ (codes "/" ++ token))

segments :
    (sn token : Bytes)
    → IsWord sn
    → IsWord token
    → split_on b'/' (page_of sn token) ≡ [] ∷ (codes "backup" ∷ (sn ∷ (token ∷ [])))
segments sn token v w =
    let last =
      subst (λ q. split_on b'/' q ≡ (token ++ []) ∷ []) (append-nil token)
        (split_on-IsWord token [] [] [] w (unfold split_on in refl)) in
    let third = split_on_slash token (token ++ []) [] last in
    let second = split_on-IsWord sn (b'/' ∷ token) [] ((token ++ []) ∷ []) v third in
    let first = split_on_slash (sn ++ (b'/' ∷ token)) (sn ++ []) ((token ++ []) ∷ []) second in
    let name =
      split_on-IsWord (codes "backup") (b'/' ∷ (sn ++ (b'/' ∷ token))) []
        ((sn ++ []) ∷ (token ++ []) ∷ []) (refl, (refl, (refl, (refl, (refl, (refl, tt))))))
        first in
    split_on_slash (codes "backup" ++ (b'/' ∷ (sn ++ (b'/' ∷ token)))) (codes "backup")
      ((sn ++ []) ∷ (token ++ []) ∷ []) name
    ∙ rw (append-nil sn, append-nil token) refl

not_empty : (s : Bytes) → s ≢ [] → (length s == 0) ≡ false
not_empty [] n = absurd (n refl)
not_empty (c ∷ s) n = ground arith

-- The address on a host leads to the file of its serial and token.
pub fetch_down_url :
    {F : Type 0} (percent : Bytes → Bytes) (host sn token : Bytes) (v : Vault F)
    → ((s : Bytes) → IsWord s → percent s ≡ s)
    → IsWord sn
    → sn ≢ []
    → IsWord token
    → token ≢ []
    → (page : Bytes) × (down_url host sn token ≡ codes "http://" ++ (host ++ page))
      × (download percent page v ≡ backup_blob sn token v)
unfolding download text_eq backup_blob
fetch_down_url percent host sn token v plain w ne wt net = (
  page_of sn token,
  refl,
  rw
      (
        segments sn token w wt,
        not_empty sn ne,
        not_empty token net,
        if◌then◌else◌,
        plain sn w,
        plain token wt,
      )
      refl,
)
