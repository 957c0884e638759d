-- ===== src/App/Tabs.antt =====
-- Which tab button is marked as the open one.
use rcon_ui.Base.{
  ◌≡◌, refl, ap, ◌∙◌, inl, inr, Bool, true, false, Option, none, some, [], ◌∷◌, ◌++◌, if◌then◌else◌,
  Bool-cases, filter,
}
use rcon_ui.Discovery.{DiscoveryReport}
use rcon_ui.Api.Request.{Outcome}
use rcon_ui.App.{List, ℕ, Tab, settings, commands, console, State, default_tab, discovery_settled}
use rcon_ui.App.Selection.{tab-discovery_settled}
use rcon_ui.App.Page.{
  TabButton, tab_buttons, button, options_count, commands_count, options_offered, commands_offered,
}

abbrev pub count_of : Option DiscoveryReport → Tab → TabButton
count_of report settings = button settings settings (options_count report)
count_of report commands = button commands commands (commands_count report)
count_of report console = button console console none

abbrev pub is_offered : Option DiscoveryReport → Tab → Bool
is_offered report settings = options_offered report
is_offered report commands = commands_offered report
is_offered report console = true

-- The button of a tab that may be missing.
abbrev its_button : Tab → Option ℕ → Option ℕ → Bool → Bool → List TabButton
its_button settings m n o c = if o then button settings settings m ∷ [] else []
its_button commands m n o c = if c then button commands commands n ∷ [] else []
its_button console m n o c = button console console none ∷ []

marked_of :
    (tab : Tab) (m n : Option ℕ) (o c : Bool)
    → filter
        (λ (b : TabButton). b.active)
        ((if o then button tab settings m ∷ [] else [])
          ++ ((if c then button tab commands n ∷ [] else []) ++ button tab console none ∷ []))
      ≡ its_button tab m n o c
marked_of settings m n true true = refl
marked_of settings m n true false = refl
marked_of settings m n false true = refl
marked_of settings m n false false = refl
marked_of commands m n true true = refl
marked_of commands m n true false = refl
marked_of commands m n false true = refl
marked_of commands m n false false = refl
marked_of console m n true true = refl
marked_of console m n true false = refl
marked_of console m n false true = refl
marked_of console m n false false = refl

-- The marked buttons are the one of the open tab, if it has one.
active_tabs :
    (report : Option DiscoveryReport) (tab : Tab)
    → filter (λ (b : TabButton). b.active) (tab_buttons report tab)
      ≡ (if is_offered report tab then count_of report tab ∷ [] else [])
unfolding tab_buttons
active_tabs report settings =
    marked_of settings (options_count report) (commands_count report) (options_offered report)
      (commands_offered report)
active_tabs report commands =
    marked_of commands (options_count report) (commands_count report) (options_offered report)
      (commands_offered report)
active_tabs report console =
    marked_of console (options_count report) (commands_count report) (options_offered report)
      (commands_offered report)

default_tab-is_offered :
    (report : Option DiscoveryReport) → is_offered report (default_tab report) ≡ true
unfolding default_tab
default_tab-is_offered none = refl
default_tab-is_offered (some r) = elim (Bool-cases r.capabilities.options) [
  | inl o ↦ rw o refl
  | inr o ↦
      rw o (elim (Bool-cases r.capabilities.commands) [ inl c ↦ rw c refl | inr c ↦ rw c refl ])
]

-- Whatever the daemon answers about a server, while the user has not chosen a tab since it was
-- selected exactly one tab button is marked, that of the open tab; where the user has chosen one, it
-- is marked exactly if the report offers that tab, and otherwise none is.
pub marked_tabs :
    (o : Outcome DiscoveryReport) (s : State)
    → (s.report ≡ none → s.tab_touched ≡ false → s.tab ≡ console)
    → (s.tab_touched ≡ false
        → filter
            (λ (b : TabButton). b.active)
            (tab_buttons (discovery_settled o s).report (discovery_settled o s).tab)
          ≡ count_of (discovery_settled o s).report (discovery_settled o s).tab ∷ [])
      × (s.tab_touched ≡ true
          → filter
              (λ (b : TabButton). b.active)
              (tab_buttons (discovery_settled o s).report (discovery_settled o s).tab)
            ≡ (if is_offered (discovery_settled o s).report s.tab
                then count_of (discovery_settled o s).report s.tab ∷ []
                else []))
marked_tabs o s h =
    let report = (discovery_settled o s).report in
    let q = tab-discovery_settled o s h in
    (
      λ t.
          let there : (discovery_settled o s).tab ≡ default_tab report =
            q ∙ ap (λ b. if b then s.tab else default_tab report) t in
          active_tabs report (discovery_settled o s).tab
          ∙ rw there (rw (default_tab-is_offered report) refl),
      λ t.
          let kept : (discovery_settled o s).tab ≡ s.tab =
            q ∙ ap (λ b. if b then s.tab else default_tab report) t in
          rw kept (active_tabs report s.tab),
    )
