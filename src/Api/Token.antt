-- ===== src/Api/Token.antt =====
-- Reading the credential is stable, and takes it out of the address bar.
use rcon_ui.Base.{
  ℕ, suc, ◌+◌, ◌≤◌, ◌≡◌, refl, ◌≢◌, true, false, [], ◌∷◌, ◌++◌, Option, none, some, arith,
  if◌then◌else◌, ◌==◌, Option-cases, Bool-cases, inl, inr,
}
use rcon_ui.Text.{Text, codes, includes, starts_with, Without, ===_iff, ===_refl}
use rcon_ui.Text.Dict.{lookup, lookup-erase}
use rcon_ui.Api.{Page, truthy, token_param, from_url, token, add_token}

truthy_idem : (o : Option Text) {t : Text} → truthy o ≡ some t → truthy (some t) ≡ some t
truthy_idem none h = cc
truthy_idem (some []) h = cc
truthy_idem (some (c ∷ s)) {t} h = ground arith

-- Asking twice gives the same credential, and the second time changes nothing.
pub token_idem : (p : Page) → token (token p).1 ≡ token p
unfolding token from_url
token_idem p = elim (Option-cases (truthy p.cached)) [
  | inr (t, c) ↦ ground arith
  | inl nc ↦ elim (Option-cases (truthy p.injected)) [
    | inr (t, i) ↦ ground (arith, truthy_idem p.injected {t = t} i)
    | inl ni ↦ elim (Option-cases (truthy (lookup token_param p.params))) [
      | inr (t, u) ↦ ground (arith, truthy_idem (lookup token_param p.params) {t = t} u)
      | inl nu ↦ ground arith
    ]
  ]
]

-- A credential that comes from the address is kept in memory, is gone from the query, and every
-- other parameter stays.
pub token_stripped :
    (p : Page) (t k : Text)
    → truthy p.cached ≡ none
    → truthy p.injected ≡ none
    → truthy (lookup token_param p.params) ≡ some t
    → k ≢ token_param
    → ((token p).0 ≡ some t)
      × ((token p).1.cached ≡ some t)
      × (lookup token_param (token p).1.params ≡ none)
      × (lookup k (token p).1.params ≡ lookup k p.params)
unfolding token from_url
token_stripped p t k nc ni u ne = (
  ground arith,
  ground arith,
  ground (arith, lookup-erase token_param token_param p.params, ===_refl token_param),
  ground (arith, lookup-erase token_param k p.params, ===_iff token_param k),
)

-- How many times `c` stands in a text.
abbrev pub count : ℕ → Text → ℕ
count c [] = 0
count c (d ∷ s) = if d == c then suc (count c s) else count c s

count-append : (c : ℕ) (s t : Text) → count c (s ++ t) ≡ count c s + count c t
count-append c [] t = omega arith
count-append c (d ∷ s) t = ground (arith, count-append c s t)

count_of_Without : (c : ℕ) (s : Text) → Without c s → count c s ≡ 0
count_of_Without c [] h = refl
count_of_Without c (d ∷ s) (e, h) = ground (arith, count_of_Without c s h)

includes-count_pos : (c : ℕ) (s : Text) → includes s (c ∷ []) ≡ true → 1 ≤ count c s
unfolding includes starts_with
includes-count_pos c [] h = cc
includes-count_pos c (d ∷ s) h = ground (arith, includes-count_pos c s)

includes-count_zero : (c : ℕ) (s : Text) → includes s (c ∷ []) ≡ false → count c s ≡ 0
unfolding includes starts_with
includes-count_zero c [] h = refl
includes-count_zero c (d ∷ s) h = ground (arith, includes-count_zero c s)

-- The path may have a query or none: with the credential added the URL has exactly one `?`, if the
-- path had at most one and the encoding leaves none in the credential.
pub count-add_token :
    (encode : Text → Text) (path t : Text)
    → count b'?' path ≤ 1
    → Without b'?' (encode t)
    → count b'?' (add_token encode path t) ≡ 1
unfolding add_token
count-add_token encode path t h w = elim (Bool-cases (includes path (codes "?"))) [
  | inl has ↦ rw has (
      omega (
        arith,
        count-append b'?' path (codes "&" ++ codes "access_token=" ++ encode t),
        count-append b'?' path (codes "&"),
        count-append b'?' (path ++ codes "&") (codes "access_token="),
        count-append b'?' (path ++ codes "&" ++ codes "access_token=") (encode t),
        count_of_Without b'?' (encode t) w,
        includes-count_pos b'?' path has,
      ))
  | inr lacks ↦ rw lacks (
      omega (
        arith,
        count-append b'?' path (codes "?"),
        count-append b'?' (path ++ codes "?") (codes "access_token="),
        count-append b'?' (path ++ codes "?" ++ codes "access_token=") (encode t),
        count_of_Without b'?' (encode t) w,
        includes-count_zero b'?' path lacks,
      ))
]
