-- ===== src/Settings/Shown.antt =====
-- Which options the panel shows, and what can be done with them.
use rcon_ui.Settings.View.{
  Fractional, ControlEvent, clicked, decreased, increased, entered, use_control, on_change,
  options_page, page, RowView, is_nil, shown_sections,
}
use rcon_ui.Discovery.{DiscoveryReport}
use rcon_ui.Settings.{Panel, Row, section_name, sections, matches}
use rcon_ui.Base.{
  ◌≡◌, refl, sym, ap, ◌∙◌, subst, inl, inr, Bool, true, false, not, ◌&&◌, Option, none, some, List,
  [], ◌∷◌, map, arith, if◌then◌else◌, Bool-cases, filter,
}
use rcon_ui.Text.{Text, ◌===◌, ===_iff}
use rcon_ui.Text.Dict.{lookup}
use rcon_ui.Text.DictKeys.{entry_key}
use rcon_ui.Text.Keyed.{distinct, has_key}
use rcon_ui.Grouping.Laws.{group, joined}
use rcon_ui.Settings.Sections.{sections_lem}

-- The rows if there are any.
abbrev if_any {ℓ} : {A : Type ℓ} → List A → Option (List A)
if_any xs = if is_nil xs then none else some xs

abbrev any_of {ℓ} : {A : Type ℓ} → (A → Bool) → Option (List A) → Option (List A)
any_of p none = none
any_of p (some xs) = if_any (filter p xs)

abbrev kept {ℓ} : {A : Type ℓ} → (A → Bool) → List (Text × List A) → List (Text × List A)
kept {A = A} p m =
    filter (λ (g : Text × List A). not (is_nil g.1))
      (map (λ (g : Text × List A). (g.0, filter p g.1)) m)

module _ {ℓ} {A : Type ℓ} (p : A → Bool) where
  lookup-kept_one :
      (n j : Text) (xs : List A) (m : List (Text × List A))
      → lookup n (kept p ((j, xs) ∷ m)) ≡ (
          if (j === n) && not (is_nil (filter p xs))
          then some (filter p xs)
          else lookup n (kept p m))
  unfolding lookup
  lookup-kept_one n j xs m = elim (Bool-cases (is_nil (filter p xs))) [
    | inl e ↦ rw e (ground arith)
    | inr e ↦ rw e (ground arith)
  ]

  lookup-kept_none :
      (n : Text) (m : List (Text × List A))
      → has_key entry_key n m ≡ false
      → lookup n (kept p m) ≡ none
  lookup-kept_none n [] h = unfold lookup in refl
  lookup-kept_none n ((j, xs) ∷ m) h =
      let other : (j === n) ≡ false = ground arith in
      lookup-kept_one n j xs m ∙ rw other (lookup-kept_none n m (ground arith))

  lookup-kept :
      (n : Text) (m : List (Text × List A))
      → distinct entry_key m ≡ true
      → lookup n (kept p m) ≡ any_of p (lookup n m)
  unfolding lookup
  lookup-kept n [] d = refl
  lookup-kept n ((j, xs) ∷ m) d = lookup-kept_one n j xs m ∙ elim (Bool-cases (j === n)) [
    | inr e ↦ rw e (lookup-kept n m (ground arith))
    | inl e ↦
        let same : j ≡ n = (===_iff j n).0 e in
        let gone : has_key entry_key n m ≡ false =
          subst (λ k. has_key entry_key k m ≡ false) same (ground arith) in
        rw e (elim (Bool-cases (is_nil (filter p xs))) [
          | inl v ↦ rw v (lookup-kept_none n m gone)
          | inr v ↦ rw v refl
        ])
  ]

  filter_comm : (q : A → Bool) (xs : List A) → filter p (filter q xs) ≡ filter q (filter p xs)
  filter_comm q [] = refl
  filter_comm q (x ∷ xs) = ground (arith, filter_comm q xs)

  any_of-joined : (xs ys : List A) → filter p xs ≡ ys → any_of p (joined none xs) ≡ joined none ys
  any_of-joined [] ys h = rw (sym h) refl
  any_of-joined (x ∷ xs) [] h = rw h refl
  any_of-joined (x ∷ xs) (y ∷ ys) h = rw h refl

-- Under a heading the panel shows exactly the options of that section that the filter keeps, in the
-- report's order; a section of which it keeps none has no heading.
pub shown_sections_lem :
    (lower : Text → Text) (filter_text : Text) (rs : List Row) (n : Text)
    → lookup n (shown_sections lower filter_text rs)
      ≡ group section_name n (filter (matches lower filter_text) rs)
unfolding shown_sections
shown_sections_lem lower filter_text rs n =
    let p = matches lower filter_text in
    let (held, apart, order) = sections_lem rs n in
    lookup-kept p n (sections rs) apart
    ∙ ap (any_of p) held
    ∙ any_of-joined p (filter (λ row. section_name row === n) rs)
        (filter (λ row. section_name row === n) (filter p rs))
        (filter_comm p (λ row. section_name row === n) rs)

-- Where the server reported no write command, no event of a control stages anything, and there is no
-- staging bar, whatever was staged.
pub read_only_lem :
    (lower : Text → Text) (fractional : Fractional) (report : DiscoveryReport) (filter_text : Text)
    (p : Panel)
    → report.capabilities.option_write ≡ false
    → ((row : Row) (event : ControlEvent)
        → use_control fractional (not report.capabilities.option_write) row event p ≡ p)
      × ((shown : List (Text × List RowView)) × (options_page lower filter_text report p
            ≡ page shown []))
unfolding use_control on_change options_page
read_only_lem lower fractional report filter_text p h = rw h (
  λ row event. elim event [
    | clicked ↦ refl
    | decreased ↦ refl
    | increased ↦ refl
    | entered t ↦ refl
  ],
  (_, refl),
)
