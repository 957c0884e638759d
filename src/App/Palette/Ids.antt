-- ===== src/App/Palette/Ids.antt =====
-- The identifiers of the palette's entries, by which React tells the rows apart.
use rcon_ui.Base.{
  ◌≡◌, refl, ap, ap₂, ◌∙◌, inl, inr, Bool, true, false, not, ◌&&◌, ◌||◌, Option, none, some, List,
  [], ◌∷◌, ◌++◌, map, arith, ◌==◌, Bool-cases, is_some, All, all,
}
use rcon_ui.Text.{Text, codes, ◌===◌}
use rcon_ui.Text.Keyed.{has_key, distinct}
use rcon_ui.Text.ObjectKeys.{contains}
use rcon_ui.Text.TextSet.{unique}
use rcon_ui.CommandPalette.{Command}
use rcon_ui.Sidebar.{Server}
use rcon_ui.Discovery.{DiscoveryReport}
use rcon_ui.App.{State, Macro, selected}
use rcon_ui.App.Palette.{
  Run, general, of_server, of_report, has_options, has_commands, of_macro, of_history, recent,
  entries, palette_commands,
}

abbrev pub command_id : Command Run → Text
command_id c = c.id

abbrev pub macro_id : Macro → Text
macro_id m = m.id

-- The first letter of an identifier is neither that of a macro's nor that of a history entry's.
abbrev is_fixed : Text → Bool
is_fixed [] = false
is_fixed (c ∷ s) = not (b'm' == c) && not (b'h' == c)

has_key-append :
    (k : Text) (xs ys : List (Command Run))
    → has_key command_id k (xs ++ ys) ≡ (has_key command_id k xs || has_key command_id k ys)
has_key-append k [] ys = refl
has_key-append k (x ∷ xs) ys = ground (arith, has_key-append k xs ys)

has_key-macros :
    (k : Text) (ms : List Macro)
    → is_fixed k ≡ true
    → has_key command_id k (map of_macro ms) ≡ false
unfolding ◌===◌
has_key-macros [] ms h = cc
has_key-macros (c ∷ k) [] h = refl
has_key-macros (c ∷ k) (m ∷ ms) h = ground (arith, has_key-macros (c ∷ k) ms h)

has_key-history :
    (k : Text) (hs : List Text)
    → is_fixed k ≡ true
    → has_key command_id k (map of_history hs) ≡ false
unfolding ◌===◌
has_key-history [] hs h = cc
has_key-history (c ∷ k) [] h = refl
has_key-history (c ∷ k) (t ∷ hs) h = ground (arith, has_key-history (c ∷ k) hs h)

-- Entries in front of others that have none of their identifiers.
distinct-append :
    (xs ys : List (Command Run))
    → All (λ x. has_key command_id x.id ys ≡ false) xs
    → distinct command_id (xs ++ ys) ≡ (distinct command_id xs && distinct command_id ys)
distinct-append [] ys h = refl
distinct-append (x ∷ xs) ys (p, h) =
    ground (arith, distinct-append xs ys h, has_key-append x.id xs ys)

same_macro :
    (k : Text) (ms : List Macro)
    → has_key command_id (codes "macro-" ++ k) (map of_macro ms) ≡ has_key macro_id k ms
unfolding ◌===◌
same_macro k [] = refl
same_macro k (m ∷ ms) = ap (λ b. (m.id === k) || b) (same_macro k ms)

distinct-macros : (ms : List Macro) → distinct command_id (map of_macro ms) ≡ distinct macro_id ms
distinct-macros [] = refl
distinct-macros (m ∷ ms) = ap₂ (λ a b. not a && b) (same_macro m.id ms) (distinct-macros ms)

same_history :
    (k : Text) (hs : List Text)
    → has_key command_id (codes "history-" ++ k) (map of_history hs) ≡ contains k hs
unfolding ◌===◌
same_history k [] = refl
same_history k (t ∷ hs) = ap (λ b. (t === k) || b) (same_history k hs)

distinct-history : (hs : List Text) → distinct command_id (map of_history hs) ≡ unique hs
distinct-history [] = refl
distinct-history (t ∷ hs) = ap₂ (λ a b. not a && b) (same_history t hs) (distinct-history hs)

-- No history entry has the identifier of a macro.
apart :
    (k : Text) (hs : List Text)
    → has_key command_id (codes "macro-" ++ k) (map of_history hs) ≡ false
unfolding ◌===◌
apart k [] = refl
apart k (t ∷ hs) = apart k hs

macros-apart :
    (ms : List Macro) (hs : List Text)
    → All (λ x. has_key command_id x.id (map of_history hs) ≡ false) (map of_macro ms)
macros-apart [] hs = tt
macros-apart (m ∷ ms) hs = (apart m.id hs, macros-apart ms hs)

-- The entries of the commands that depend on neither the macros nor the history.
abbrev fixed : Server → Option DiscoveryReport → List (Command Run)
fixed server r = general ++ of_server server ++ of_report r

All-clear :
    (ys xs : List (Command Run))
    → ((k : Text) → is_fixed k ≡ true → has_key command_id k ys ≡ false)
    → all (λ x. is_fixed x.id) xs ≡ true
    → All (λ x. has_key command_id x.id ys ≡ false) xs
All-clear ys [] h f = tt
All-clear ys (x ∷ xs) h f = (h x.id (ground arith), All-clear ys xs h (ground arith))

all-fixed :
    (server : Server) (r : Option DiscoveryReport)
    → all (λ x. is_fixed x.id) (fixed server r) ≡ true
all-fixed server r = elim (Bool-cases (has_options r)) [
  | inl o ↦ elim (Bool-cases (has_commands r)) [
    | inl c ↦ rw o (rw c refl)
    | inr c ↦ rw o (rw c refl)
  ]
  | inr o ↦ elim (Bool-cases (has_commands r)) [
    | inl c ↦ rw o (rw c refl)
    | inr c ↦ rw o (rw c refl)
  ]
]

distinct-fixed :
    (server : Server) (r : Option DiscoveryReport) → distinct command_id (fixed server r) ≡ true
unfolding ◌===◌
distinct-fixed server r = elim (Bool-cases (has_options r)) [
  | inl o ↦ elim (Bool-cases (has_commands r)) [
    | inl c ↦ rw o (rw c refl)
    | inr c ↦ rw o (rw c refl)
  ]
  | inr o ↦ elim (Bool-cases (has_commands r)) [
    | inl c ↦ rw o (rw c refl)
    | inr c ↦ rw o (rw c refl)
  ]
]

entries_lem :
    (o : Option Server) (s : State)
    → distinct command_id (entries o s)
      ≡ (not (is_some o) || (distinct macro_id s.macros && unique (recent s.history)))
unfolding ◌===◌
entries_lem none s = refl
entries_lem (some server) s =
    let ms = map of_macro s.macros in
    let hs = map of_history (recent s.history) in
    let clear : (k : Text) → is_fixed k ≡ true → has_key command_id k (ms ++ hs) ≡ false = λ k f.
      has_key-append k ms hs
      ∙ ap₂ ◌||◌ (has_key-macros k s.macros f) (has_key-history k (recent s.history) f) in
    distinct-append (fixed server s.report) (ms ++ hs)
      (All-clear (ms ++ hs) (fixed server s.report) clear (all-fixed server s.report))
    ∙ ap₂ ◌&&◌ (distinct-fixed server s.report) (
        distinct-append ms hs (macros-apart s.macros (recent s.history))
        ∙ ap₂ ◌&&◌ (distinct-macros s.macros) (distinct-history (recent s.history)))

-- With a server selected the identifiers of the palette's entries are distinct exactly when those of
-- the macros are and no command stands twice among the first 20 of the history; with none they are.
pub palette_commands_lem :
    (s : State)
    → distinct command_id (palette_commands s)
      ≡ (not (is_some (selected s)) || (distinct macro_id s.macros && unique (recent s.history)))
unfolding palette_commands
palette_commands_lem s = entries_lem (selected s) s
