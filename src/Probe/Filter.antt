-- ===== src/Probe/Filter.antt =====
-- internal/discovery/filter.go: the keys of credentials, and the type of a value.
use rcon_ui.Base.{
  ℕ, ◌-◌, ◌^◌, Bool, false, not, ◌&&◌, ◌||◌, List, [], ◌∷◌, leb, ◌==◌, if◌then◌else◌, is_some,
  filter, all,
}
use rcon_ui.Text.{Text, codes, ◌===◌}
use rcon_ui.Text.Decimal.{is_digit, digits_from}
use rcon_ui.Discovery.{DiscoveredOption, OptionType, boolean, integer, number, string}
use rcon_ui.Probe.Pattern.{after_fold, to_lower}

-- Whether a literal in lower case stands somewhere, under `(?i)`.
unfoldable pub mentions : Text → Text → Bool
unfolding after_fold
mentions p [] = is_some (after_fold p [])
mentions p (c ∷ s) = is_some (after_fold p (c ∷ s)) || mentions p s

unfoldable pub credential_key : Text → Bool
unfolding mentions
credential_key key =
    mentions (codes "password") key
    || (mentions (codes "secret") key || mentions (codes "token") key)

unfoldable pub filter_credentials : List DiscoveredOption → List DiscoveredOption
unfolding credential_key
filter_credentials opts = filter (λ o. not (credential_key o.key)) opts

-- The digits of `strconv.Atoi`, which are a number up to a bound.
abbrev pub digits_within : ℕ → Text → Bool
digits_within n [] = false
digits_within n (c ∷ s) = all is_digit (c ∷ s) && leb (digits_from 0 (c ∷ s)) n

-- `strconv.Atoi` succeeds: the number is an `int` of 64 bits.
abbrev pub is_int : Text → Bool
is_int [] = false
is_int (c ∷ s) =
    if c == b'-'
    then digits_within (2 ^ 63) s
    else if c == b'+'
    then digits_within (2 ^ 63 - 1) s
    else digits_within (2 ^ 63 - 1) (c ∷ s)

-- `is_float` tells whether `strconv.ParseFloat(value, 64)` succeeds.
unfoldable pub infer_type : (Text → Bool) → Text → OptionType
unfolding ◌===◌
infer_type is_float value =
    if (to_lower value === codes "true") || (to_lower value === codes "false")
    then boolean
    else if is_int value
    then integer
    else if is_float value
    then number
    else string
