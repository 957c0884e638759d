-- ===== src/Settings/Command.antt =====
-- The command built for an edit: what the write template says, where the texts hold no `$`; and how
-- `$` in a value is read.
use rcon_ui.Base.{
  ℕ, zero, suc, ◌-◌, ◌≡◌, refl, sym, ap, ap₂, ◌∙◌, inl, inr, List, [], ◌∷◌, ◌++◌, Bool-cases,
  length, drop,
}
use rcon_ui.Text.{Text, codes, starts_with, Without}
use rcon_ui.Text.Replace.{
  replace_all, replace_all_plain, replace_from, expand, expand_plain, subst_from,
}
use rcon_ui.Settings.{build_command, key_hole, value_hole}

-- A write template, read: text that stands for itself, and the two holes.
pub data Piece : Type 0 where
  lit : Text → Piece
  key : Piece
  value : Piece

-- The template as the daemon writes it.
abbrev pub render : List Piece → Text
render [] = []
render (lit t ∷ ps) = t ++ render ps
render (key ∷ ps) = key_hole ++ render ps
render (value ∷ ps) = value_hole ++ render ps

-- The command that is meant.
abbrev pub fill : Text → Text → List Piece → Text
fill k v [] = []
fill k v (lit t ∷ ps) = t ++ fill k v ps
fill k v (key ∷ ps) = k ++ fill k v ps
fill k v (value ∷ ps) = v ++ fill k v ps

-- The literal text of a template opens no hole.
abbrev pub IsPlain : List Piece → Type 0
IsPlain [] = Unit
IsPlain (lit t ∷ ps) = Without b'{' t × IsPlain ps
IsPlain (key ∷ ps) = IsPlain ps
IsPlain (value ∷ ps) = IsPlain ps

-- The template once its keys are filled in.
abbrev with_key : Text → List Piece → Text
with_key k [] = []
with_key k (lit t ∷ ps) = t ++ with_key k ps
with_key k (key ∷ ps) = k ++ with_key k ps
with_key k (value ∷ ps) = value_hole ++ with_key k ps

subst_from-append :
    (pat repl t rest : Text)
    → Without b'{' t
    → subst_from (b'{' ∷ pat) repl (t ++ rest) 0 ≡ t ++ subst_from (b'{' ∷ pat) repl rest 0
unfolding subst_from starts_with
subst_from-append pat repl [] rest h = refl
subst_from-append pat repl (c ∷ t) rest (e, h) =
    rw e (ap (c ∷◌) (subst_from-append pat repl t rest h))

subst_key-key :
    (k rest : Text) → subst_from key_hole k (key_hole ++ rest) 0 ≡ k ++ subst_from key_hole k rest 0
unfolding subst_from starts_with
subst_key-key k rest = refl

subst_key-value :
    (k rest : Text)
    → subst_from key_hole k (value_hole ++ rest) 0 ≡ value_hole ++ subst_from key_hole k rest 0
unfolding subst_from starts_with
subst_key-value k rest = refl

subst_value-value :
    (v rest : Text)
    → subst_from value_hole v (value_hole ++ rest) 0 ≡ v ++ subst_from value_hole v rest 0
unfolding subst_from starts_with
subst_value-value v rest = refl

subst_nil : (pat repl : Text) → subst_from pat repl [] 0 ≡ []
unfolding subst_from
subst_nil pat repl = refl

subst_key-render :
    (k : Text) (ps : List Piece) → IsPlain ps → subst_from key_hole k (render ps) 0 ≡ with_key k ps
subst_key-render k [] h = subst_nil key_hole k
subst_key-render k (lit t ∷ ps) (w, h) =
    subst_from-append (codes "key}") k t (render ps) w ∙ ap (λ s. t ++ s) (subst_key-render k ps h)
subst_key-render k (key ∷ ps) h =
    subst_key-key k (render ps) ∙ ap (λ s. k ++ s) (subst_key-render k ps h)
subst_key-render k (value ∷ ps) h =
    subst_key-value k (render ps) ∙ ap (λ s. value_hole ++ s) (subst_key-render k ps h)

subst_value-with_key :
    (k v : Text) (ps : List Piece)
    → IsPlain ps
    → Without b'{' k
    → subst_from value_hole v (with_key k ps) 0 ≡ fill k v ps
subst_value-with_key k v [] h b = subst_nil value_hole v
subst_value-with_key k v (lit t ∷ ps) (w, h) b =
    subst_from-append (codes "value}") v t (with_key k ps) w
    ∙ ap (λ s. t ++ s) (subst_value-with_key k v ps h b)
subst_value-with_key k v (key ∷ ps) h b =
    subst_from-append (codes "value}") v k (with_key k ps) b
    ∙ ap (λ s. k ++ s) (subst_value-with_key k v ps h b)
subst_value-with_key k v (value ∷ ps) h b =
    subst_value-value v (with_key k ps) ∙ ap (λ s. v ++ s) (subst_value-with_key k v ps h b)

-- For a key with no `{` and no `$`, and a value with no `$`, the command is the template with both
-- written in literally, at every hole, whatever the template's plain text.
pub build_command-render :
    (ps : List Piece) (k v : Text)
    → IsPlain ps
    → Without b'{' k
    → Without b'$' k
    → Without b'$' v
    → build_command (render ps) k v ≡ fill k v ps
unfolding build_command
build_command-render ps k v h b d d' =
    ap (λ s. replace_all s value_hole v)
      (replace_all_plain (render ps) key_hole k d ∙ subst_key-render k ps h)
    ∙ replace_all_plain (with_key k ps) value_hole v d'
    ∙ subst_value-with_key k v ps h b

-- Two replacements that expand alike at every place build the same text.
replace_from_alike :
    (pat r r' : Text)
    → ((before after : Text) → expand pat before after r ≡ expand pat before after r')
    → (before s : Text) (skip : ℕ)
    → replace_from pat r before s skip ≡ replace_from pat r' before s skip
unfolding replace_from
replace_from_alike pat r r' h before [] skip = refl
replace_from_alike pat r r' h before (c ∷ s) (suc skip) =
    replace_from_alike pat r r' h (before ++ c ∷ []) s skip
replace_from_alike pat r r' h before (c ∷ s) zero = elim (Bool-cases (starts_with (c ∷ s) pat)) [
  | inl e ↦ rw e (
      ap₂ ◌++◌ (h before (drop (length pat) (c ∷ s)))
        (replace_from_alike pat r r' h (before ++ c ∷ []) s (length pat - 1)))
  | inr e ↦ rw e (ap (c ∷◌) (replace_from_alike pat r r' h (before ++ c ∷ []) s 0))
]

expand_dollars :
    (matched before after v : Text)
    → Without b'$' v
    → expand matched before after (b'$' ∷ b'$' ∷ v) ≡ b'$' ∷ v
unfolding expand
expand_dollars matched before after v h = ap (b'$' ∷◌) (expand_plain matched before after v h)

expand_dollar_space :
    (matched before after v : Text)
    → Without b'$' v
    → expand matched before after (b'$' ∷ b' ' ∷ v) ≡ b'$' ∷ b' ' ∷ v
unfolding expand
expand_dollar_space matched before after v h =
    ap (b'$' ∷◌) (expand_plain matched before after (b' ' ∷ v) (refl, h))

-- Two values, one with `$$ ` and one with `$ ` before the same text, give the same command, under
-- every template and key: `$$` is not sent as it is typed.
pub build_command_collision :
    (template k v : Text)
    → Without b'$' v
    → build_command template k (codes "$$ " ++ v) ≡ build_command template k (codes "$ " ++ v)
unfolding build_command replace_all
build_command_collision template k v h =
    replace_from_alike value_hole (codes "$$ " ++ v) (codes "$ " ++ v)
      (λ before after.
        expand_dollars value_hole before after (b' ' ∷ v) (refl, h)
        ∙ sym (expand_dollar_space value_hole before after v h))
      [] (replace_all template key_hole k) 0
