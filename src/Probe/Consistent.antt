-- ===== src/Probe/Consistent.antt =====
-- What holds of every report, whatever the server answers.
use rcon_ui.Base.{
  ℕ, ◌+◌, ◌<◌, ◌≡◌, refl, sym, ap, ◌∙◌, ◌≢◌, ◌⊎◌, inl, inr, Bool, true, false, not, ◌&&◌, ◌||◌,
  Option, List, [], ◌∷◌, ◌++◌, map, arith, ltb, leb, ◌==◌, if◌then◌else◌, Bool-cases, is_some, All,
  all,
}
use rcon_ui.Probe.Pattern.{after_fold, fold_code}
use rcon_ui.Probe.Filter.{mentions, credential_key, filter_credentials}
use rcon_ui.Text.{Text, codes}
use rcon_ui.Discovery.{DiscoveredOption, DiscoveredCommand, DiscoveryReport}
use rcon_ui.Probe.Zomboid.{looks_like_zomboid_options, is_nil}
use rcon_ui.Probe.Minecraft.{
  sweep, gamerules, discover_gamerules, query, looks_like_minecraft_gamerule,
}
use rcon_ui.Probe.Discover.{
  Fingerprint, zomboid, minecraft, unknown, is_known, make_report, read_help, options_of,
  recognised, finish, probe_gamerule, discover,
}

-- A letter of ASCII in lower case.
abbrev pub ascii_lower : ℕ → ℕ
ascii_lower c = if leb b'A' c && leb c b'Z' then c + 32 else c

-- A word, given in lower case, stands nowhere in a text, in any case of its letters.
abbrev pub Lacks : Text → Text → Type 0
Lacks word text =
    (before middle after : Text) → text ≡ before ++ middle ++ after → map ascii_lower middle ≢ word

-- The key names no credential.
abbrev pub IsPublic : DiscoveredOption → Type 0
IsPublic o =
    Lacks (codes "password") o.key × Lacks (codes "secret") o.key × Lacks (codes "token") o.key

-- The report names a game, and says whether it can be configured and how.
abbrev pub IsGame : Text → Text → Text → Bool → DiscoveryReport → Type 0
IsGame name label template known r =
    (r.fingerprint ≡ name)
    × (r.label ≡ label)
    × (r.write_template ≡ template)
    × (r.capabilities.options ≡ known)
    × (r.capabilities.option_write ≡ known)

abbrev pub IsKnown : DiscoveryReport → Type 0
IsKnown r =
    IsGame (codes "zomboid") (codes "Project Zomboid") (codes "changeoption {key} \"{value}\"") true
      r
    ⊎ IsGame (codes "minecraft") (codes "Minecraft") (codes "gamerule {key} {value}") true r

abbrev pub IsUnknown : DiscoveryReport → Type 0
IsUnknown r = IsGame (codes "unknown") (codes "Unidentified") [] false r × (r.options ≡ [])

abbrev pub IsConsistent : DiscoveryReport → Type 0
IsConsistent r =
    (IsKnown r ⊎ IsUnknown r)
    × (r.capabilities.commands ≡ true → r.commands ≢ [])
    × (r.capabilities.commands ≡ false → r.commands ≡ [])
    × All IsPublic r.options

-- A letter that is lower case in ASCII is the same under `(?i)`.
fold_ascii : (c d : ℕ) → d < 128 → ascii_lower c ≡ d → (fold_code c == d) ≡ true
fold_ascii c d l h = ground arith

after_fold_complete :
    (word middle after : Text)
    → all (λ c. ltb c 128) word ≡ true
    → map ascii_lower middle ≡ word
    → is_some (after_fold word (middle ++ after)) ≡ true
unfolding after_fold
after_fold_complete [] middle after a h = refl
after_fold_complete (w ∷ word) [] after a h = cc
after_fold_complete (w ∷ word) (c ∷ middle) after a h =
    let first : ascii_lower c ≡ w = cc in
    let rest : map ascii_lower middle ≡ word = cc in
    let low : w < 128 = ground arith in
    rw (fold_ascii c w low first) (after_fold_complete word middle after (ground arith) rest)

not_both : true ≡ false → ⊥
not_both h = cc

or_true : (a : Bool) {b : Bool} → b ≡ true → (a || b) ≡ true
or_true true h = refl
or_true false h = h

at_start : (word text : Text) → is_some (after_fold word text) ≡ true → mentions word text ≡ true
unfolding mentions
at_start word [] h = h
at_start word (c ∷ s) h = rw h refl

mentions_complete :
    (word before middle after : Text)
    → all (λ c. ltb c 128) word ≡ true
    → map ascii_lower middle ≡ word
    → mentions word (before ++ middle ++ after) ≡ true
unfolding mentions
mentions_complete word [] middle after a h =
    at_start word (middle ++ after) (after_fold_complete word middle after a h)
mentions_complete word (c ∷ before) middle after a h =
    or_true (is_some (after_fold word (c ∷ before ++ middle ++ after)))
      (mentions_complete word before middle after a h)

no_mention :
    (word text : Text)
    → all (λ c. ltb c 128) word ≡ true
    → mentions word text ≡ false
    → Lacks word text
no_mention word text a h before middle after e q =
    not_both (sym (mentions_complete word before middle after a q) ∙ ap (mentions word) (sym e) ∙ h)

credential_key-IsPublic : (o : DiscoveredOption) → credential_key o.key ≡ false → IsPublic o
unfolding credential_key
credential_key-IsPublic o h = (
  no_mention (codes "password") o.key refl (ground arith),
  no_mention (codes "secret") o.key refl (ground arith),
  no_mention (codes "token") o.key refl (ground arith),
)

filter_credentials-IsPublic : (os : List DiscoveredOption) → All IsPublic (filter_credentials os)
unfolding filter_credentials
filter_credentials-IsPublic [] = tt
filter_credentials-IsPublic (o ∷ os) = elim (Bool-cases (credential_key o.key)) [
  | inl e ↦ rw e (filter_credentials-IsPublic os)
  | inr e ↦ rw e (credential_key-IsPublic o e, filter_credentials-IsPublic os)
]

has_commands : (cs : List DiscoveredCommand) → not (is_nil cs) ≡ true → cs ≢ []
has_commands [] h e = cc
has_commands (c ∷ cs) h e = cc

no_commands : (cs : List DiscoveredCommand) → not (is_nil cs) ≡ false → cs ≡ []
no_commands [] h = refl
no_commands (c ∷ cs) h = cc

make_report-IsKnown :
    (at : Text) (f : Fingerprint) (options : List DiscoveredOption)
    (commands : List DiscoveredCommand)
    → (is_known f ≡ false → options ≡ [])
    → IsKnown (make_report at f options commands) ⊎ IsUnknown (make_report at f options commands)
unfolding make_report filter_credentials
make_report-IsKnown at zomboid options commands h = inl (inl (refl, refl, refl, refl, refl))
make_report-IsKnown at minecraft options commands h = inl (inr (refl, refl, refl, refl, refl))
make_report-IsKnown at unknown options commands h =
    inr ((refl, refl, refl, refl, refl), rw (h refl) refl)

make_report-IsConsistent :
    (at : Text) (f : Fingerprint) (options : List DiscoveredOption)
    (commands : List DiscoveredCommand)
    → (is_known f ≡ false → options ≡ [])
    → IsConsistent (make_report at f options commands)
unfolding make_report
make_report-IsConsistent at f options commands h = (
  make_report-IsKnown at f options commands h,
  has_commands commands,
  no_commands commands,
  filter_credentials-IsPublic options,
)

module _ {W : Type 0} (is_float : Text → Bool) (at : Text) (exec : Text → W → Option Text × W) where
  finish-IsConsistent :
      (f : Fingerprint) (options : List DiscoveredOption) (w : W)
      → (is_known f ≡ false → options ≡ [])
      → IsConsistent (finish is_float at exec f options w).0
  finish-IsConsistent f options w h =
      make_report-IsConsistent at f options (read_help f (exec (codes "help") w).0) h

  probe_gamerule-IsConsistent : (w : W) → IsConsistent (probe_gamerule is_float at exec w).0
  unfolding probe_gamerule discover_gamerules
  probe_gamerule-IsConsistent w =
      let (answer, w1) = exec (query (codes "randomTickSpeed")) w in
      elim (Bool-cases (recognised looks_like_minecraft_gamerule answer)) [
        | inl e ↦ rw e (
            finish-IsConsistent minecraft (sweep is_float exec gamerules w1).0
              (sweep is_float exec gamerules w1).1 (λ e. absurd (not_both e)))
        | inr e ↦ rw e (finish-IsConsistent unknown [] w1 (λ e. refl))
      ]

  -- Whatever a server answers, the report of it is that of Project Zomboid or of Minecraft, with the
  -- label and the command that changes a setting of that game, or that of a game that is not known,
  -- which has no settings and no such command; it says that it has commands if it lists some; and the
  -- key of no setting holds "password", "secret" or "token", in any case of the ASCII letters.
  pub discover-IsConsistent : (w : W) → IsConsistent (discover is_float at exec w).0
  unfolding discover
  discover-IsConsistent w =
      let (dump, w1) = exec (codes "showoptions") w in
      elim (Bool-cases (recognised (looks_like_zomboid_options is_float) dump)) [
        | inl e ↦
            rw e
              (finish-IsConsistent zomboid (options_of is_float dump) w1 (λ e. absurd (not_both e)))
        | inr e ↦ rw e (probe_gamerule-IsConsistent w1)
      ]
