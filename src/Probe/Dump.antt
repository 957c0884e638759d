-- ===== src/Probe/Dump.antt =====
-- A dump of options that a server writes is read back.
use rcon_ui.Base.{
  ℕ, ◌≡◌, refl, ap, ◌∙◌, Bool, true, false, ◌&&◌, Option, some, List, [], ◌∷◌, ◌++◌, map, arith,
  ◌==◌, if◌then◌else◌, All,
}
use rcon_ui.Text.{Text, codes, is_empty, Without}
use rcon_ui.Text.Split.{join, Parts, split-join}
use rcon_ui.Probe.Filter.{infer_type}
use rcon_ui.Discovery.{DiscoveredOption}
use rcon_ui.Probe.White.{is_white, drop_white, drop_last_white, trim_space}
use rcon_ui.Probe.Pattern.{is_blank, skip_blanks, take_run, is_letter, lines, gather}
use rcon_ui.Probe.Zomboid.{
  is_key_code, option_value, key_value, option_line, typed_option, typed_pair, read_option,
  parse_zomboid_options,
}

-- No white space at the ends.
abbrev pub StartsDark : Text → Type 0
StartsDark [] = Unit
StartsDark (c ∷ s) = is_white c ≡ false

-- A key that the pattern takes, and a value of one line without white space at its ends.
abbrev pub IsKey : Text → Type 0
IsKey [] = ⊥
IsKey (c ∷ s) = (is_letter c ≡ true) × All (λ d. is_key_code d ≡ true) s

abbrev pub IsPlain : Text → Type 0
IsPlain value = StartsDark value × (drop_last_white value ≡ value) × Without b'\n' value

abbrev pub IsSetting : Text × Text → Type 0
IsSetting (key, value) = IsKey key × IsPlain value

-- A line of the dump: `* key=value`.
abbrev pub option_text : Text × Text → Text
option_text (key, value) = codes "* " ++ key ++ b'=' ∷ value

abbrev pub dump_text : Text × Text → List (Text × Text) → Text
dump_text first rest = join b'\n' (option_text first) (map option_text rest)

take_run_all :
    (p : ℕ → Bool) (s : Text) (c : ℕ) (t : Text)
    → All (λ d. p d ≡ true) s
    → p c ≡ false
    → take_run p (s ++ c ∷ t) ≡ (s, c ∷ t)
unfolding take_run
take_run_all p [] c t h e = rw e refl
take_run_all p (d ∷ s) c t (h, hs) e = rw (h, take_run_all p s c t hs e) refl

blank_white : (c : ℕ) → is_white c ≡ false → is_blank c ≡ false
unfolding is_white
blank_white c h = ground arith

skip_blanks-StartsDark : (s : Text) → StartsDark s → skip_blanks s ≡ s
unfolding skip_blanks
skip_blanks-StartsDark [] h = refl
skip_blanks-StartsDark (c ∷ s) h = ground (arith, blank_white c)

drop_white-StartsDark : (s : Text) → StartsDark s → drop_white s ≡ s
unfolding drop_white
drop_white-StartsDark [] h = refl
drop_white-StartsDark (c ∷ s) h = rw h refl

append_not_empty : (s : Text) (c : ℕ) (t : Text) → is_empty (s ++ c ∷ t) ≡ false
append_not_empty [] c t = refl
append_not_empty (d ∷ s) c t = refl

-- What stands before a text that ends in no white space, when that text begins with none.
drop_last_white-append :
    (s t : Text) (c : ℕ)
    → is_white c ≡ false
    → drop_last_white t ≡ t
    → drop_last_white (s ++ c ∷ t) ≡ s ++ c ∷ t
unfolding drop_last_white
drop_last_white-append [] t c h e = rw (h, e) refl
drop_last_white-append (d ∷ s) t c h e =
    ap (λ u. if is_white d && is_empty u then [] else d ∷ u) (drop_last_white-append s t c h e)
    ∙ ground (arith, append_not_empty s c t)

letter_code : (c : ℕ) → is_letter c ≡ true → (is_white c ≡ false) × ((c == b'\n') ≡ false)
unfolding is_white
letter_code c h = (ground arith, ground arith)

key_code : (c : ℕ) → is_key_code c ≡ true → (c == b'\n') ≡ false
key_code c h = ground arith

Without-append : (x : ℕ) (s t : Text) → Without x s → Without x t → Without x (s ++ t)
Without-append x [] t h k = k
Without-append x (c ∷ s) t (e, h) k = (e, Without-append x s t h k)

key-Without : (s : Text) → All (λ d. is_key_code d ≡ true) s → Without b'\n' s
key-Without [] h = tt
key-Without (c ∷ s) (e, h) = (key_code c e, key-Without s h)

option_text-Without : (o : Text × Text) → IsSetting o → Without b'\n' (option_text o)
option_text-Without ([], value) (k, v) = elim k [ ]
option_text-Without (c ∷ s, value) ((l, k), (d, e, w)) = (
  refl,
  (refl, ((letter_code c l).1, Without-append b'\n' s (b'=' ∷ value) (key-Without s k) (refl, w))),
)

trim_space-option_text :
    (o : Text × Text) → IsSetting o → trim_space (option_text o) ≡ option_text o
unfolding trim_space drop_white
trim_space-option_text (key, value) (k, (d, e, w)) =
    drop_last_white-append (codes "* " ++ key) value b'=' refl e

option_line-option_text : (o : Text × Text) → IsSetting o → option_line (option_text o) ≡ some o
unfolding option_line key_value option_value skip_blanks
option_line-option_text ([], value) (k, v) = elim k [ ]
option_line-option_text (c ∷ s, value) ((l, k), (d, e, w)) =
    rw
      (
        blank_white c (letter_code c l).0,
        take_run_all is_key_code s b'=' value k refl,
        l,
        skip_blanks-StartsDark value d,
      )
      (ap (λ (q : Text × Text). some (c ∷ q.0, value))
        (take_run_all is_key_code s b'=' value k refl))

-- The option that a setting is read as.
abbrev pub setting_option : (Text → Bool) → Text × Text → DiscoveredOption
setting_option is_float (key, value) = record {
  key = key;
  value = value;
  type = infer_type is_float value;
}

trim_space-plain : (value : Text) → IsPlain value → trim_space value ≡ value
unfolding trim_space
trim_space-plain value (d, e, w) = ap drop_last_white (drop_white-StartsDark value d) ∙ e

typed_option-plain :
    (is_float : Text → Bool) (key value : Text)
    → IsPlain value
    → typed_option is_float key value ≡ setting_option is_float (key, value)
unfolding typed_option
typed_option-plain is_float key value h =
    ap (λ v. setting_option is_float (key, v)) (trim_space-plain value h)

read_option-option_text :
    (is_float : Text → Bool) (o : Text × Text)
    → IsSetting o
    → read_option is_float (option_text o) ≡ some (setting_option is_float o)
unfolding read_option typed_option trim_space
read_option-option_text is_float (key, value) h =
    ap (λ l. typed_pair is_float (option_line l)) (trim_space-option_text (key, value) h)
    ∙ ap (typed_pair is_float) (option_line-option_text (key, value) h)
    ∙ ap some (typed_option-plain is_float key value h.1)

gather-map :
    {A B C : Type 0} (f : B → Option C) (g : A → B) (h : A → C) (P : A → Type 0)
    → ((x : A) → P x → f (g x) ≡ some (h x))
    → (xs : List A) → All P xs
    → gather f (map g xs) ≡ map h xs
unfolding gather
gather-map f g h P e [] p = refl
gather-map f g h P e (x ∷ xs) (p, ps) = rw (e x p, gather-map f g h P e xs ps) refl

All-map :
    {A B : Type 0} (P : A → Type 0) (Q : B → Type 0) (f : A → B)
    → ((x : A) → P x → Q (f x))
    → (xs : List A) → All P xs
    → All Q (map f xs)
All-map P Q f h [] p = tt
All-map P Q f h (x ∷ xs) (p, ps) = (h x p, All-map P Q f h xs ps)

-- A dump of settings, a line `* key=value` for each, is read as those settings, in their order, each
-- with the type of its value.
pub parse_zomboid_options-dump_text :
    (is_float : Text → Bool) (first : Text × Text) (rest : List (Text × Text))
    → All IsSetting (first ∷ rest)
    → parse_zomboid_options is_float (dump_text first rest)
      ≡ map (setting_option is_float) (first ∷ rest)
unfolding parse_zomboid_options lines
parse_zomboid_options-dump_text is_float first rest (p, ps) =
    ap (λ (q : Parts). gather (read_option is_float) (q.0 ∷ q.1))
      (split-join b'\n' (option_text first) (map option_text rest) (option_text-Without first p)
        (All-map IsSetting (Without b'\n') option_text option_text-Without rest ps))
    ∙ gather-map (read_option is_float) option_text (setting_option is_float) IsSetting
        (read_option-option_text is_float) (first ∷ rest) (p, ps)
