-- ===== src/Commands/Rows.antt =====
-- The order of the command list.
use rcon_ui.Base.{
  ◌+◌, ◌≡◌, refl, sym, ap, ap₂, ◌∙◌, Bool, true, false, not, Option, none, some, List, [], ◌∷◌,
  ◌++◌, append-nil, arith, length, length-append, filter, filter-append, All-filter, filter-All,
}
use rcon_ui.Text.{Text, ◌===◌}
use rcon_ui.Text.DictKeys.{===_comm}
use rcon_ui.Text.TextSet.{toggle, contains-toggle}
use rcon_ui.Discovery.{DiscoveredCommand, DiscoveryReport}
use rcon_ui.Commands.{is_pinned, reported, command_matches, command_rows}

-- Filters that agree on the elements kept by a first one.
filter_agree {ℓ} :
    {A : Type ℓ} (p q r : A → Bool)
    → ((x : A) → p x ≡ true → q x ≡ r x)
    → (xs : List A) → filter p (filter q xs) ≡ filter p (filter r xs)
filter_agree p q r h [] = refl
filter_agree p q r h (x ∷ xs) = ground (arith, h x, filter_agree p q r h xs)

-- Every command but those called `name`.
abbrev pub not_named : Text → DiscoveredCommand → Bool
not_named name c = not (c.name === name)

-- Pinning or unpinning a command never moves the others: with it left out the list is the same as
-- before, whatever the filter.
pub command_rows-toggle :
    (lower : Text → Text) (report : Option DiscoveryReport) (filter_text name : Text)
    (pins : List Text)
    → filter (not_named name) (command_rows lower report filter_text (toggle name pins))
      ≡ filter (not_named name) (command_rows lower report filter_text pins)
unfolding command_rows
command_rows-toggle lower report filter_text name pins =
    filter-append (not_named name) (filter (is_pinned (toggle name pins)) shown)
      (filter (λ c. not (is_pinned (toggle name pins) c)) shown)
    ∙ ap₂ ◌++◌
        (filter_agree (not_named name) (is_pinned (toggle name pins)) (is_pinned pins) same shown)
        (filter_agree (not_named name) (λ c. not (is_pinned (toggle name pins) c))
          (λ c. not (is_pinned pins c)) (λ c h. ap not (same c h)) shown)
    ∙ sym (
        filter-append (not_named name) (filter (is_pinned pins) shown)
          (filter (λ c. not (is_pinned pins c)) shown))
  where
    shown : List DiscoveredCommand
    shown =
        filter (command_matches lower filter_text) (elim report [ none ↦ [] | some r ↦ r.commands ])

    same :
        (c : DiscoveredCommand)
        → not_named name c ≡ true
        → is_pinned (toggle name pins) c ≡ is_pinned pins c
    same c h = ground (arith, contains-toggle name c.name pins, ===_comm c.name name)

filter_idem {ℓ} : {A : Type ℓ} (p : A → Bool) (xs : List A) → filter p (filter p xs) ≡ filter p xs
filter_idem p xs = filter-All p (filter p xs) (All-filter p xs)

filter_apart {ℓ} :
    {A : Type ℓ} (p q : A → Bool)
    → ((x : A) → q x ≡ true → p x ≡ false)
    → (xs : List A) → filter p (filter q xs) ≡ []
filter_apart p q h [] = refl
filter_apart p q h (x ∷ xs) = ground (arith, h x, filter_apart p q h xs)

length-partition {ℓ} :
    {A : Type ℓ} (p : A → Bool) (xs : List A)
    → length (filter p xs) + length (filter (λ x. not (p x)) xs) ≡ length xs
length-partition p [] = omega arith
length-partition p (x ∷ xs) = ground (arith, length-partition p xs)

-- The commands that match the filter, in the order of the report.
abbrev pub matching : (Text → Text) → Option DiscoveryReport → Text → List DiscoveredCommand
matching lower report filter_text = filter (command_matches lower filter_text) (reported report)

-- The list is a stable partition of the commands that match: it has as many rows, and the pinned
-- ones among them, and the others, stand in the order of the report.
pub command_rows_stable :
    (lower : Text → Text) (report : Option DiscoveryReport) (filter_text : Text) (pins : List Text)
    → (filter (is_pinned pins) (command_rows lower report filter_text pins)
        ≡ filter (is_pinned pins) (matching lower report filter_text))
      × (filter (λ c. not (is_pinned pins c)) (command_rows lower report filter_text pins)
          ≡ filter (λ c. not (is_pinned pins c)) (matching lower report filter_text))
      × (length (command_rows lower report filter_text pins)
          ≡ length (matching lower report filter_text))
unfolding command_rows
command_rows_stable lower report filter_text pins = (
  filter-append pinned (filter pinned shown) (filter unpinned shown)
      ∙ ap₂ ◌++◌ (filter_idem pinned shown)
          (filter_apart pinned unpinned (λ c h. ground arith) shown)
      ∙ append-nil (filter pinned shown),
  filter-append unpinned (filter pinned shown) (filter unpinned shown)
      ∙ ap₂ ◌++◌ (filter_apart unpinned pinned (λ c h. ground arith) shown)
          (filter_idem unpinned shown),
  length-append (filter pinned shown) (filter unpinned shown) ∙ length-partition pinned shown,
)
  where
    shown : List DiscoveredCommand
    shown = matching lower report filter_text

    pinned : DiscoveredCommand → Bool
    pinned = is_pinned pins

    unpinned : DiscoveredCommand → Bool
    unpinned c = not (is_pinned pins c)
