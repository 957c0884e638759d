-- ===== src/App/Selection.antt =====
-- The selection points at a server of the list, and the tab at what the report supports.
use rcon_ui.Base.{
  ◌≡◌, refl, ◌∙◌, ◌≢◌, inl, inr, Bool, true, false, not, Option, none, some, List, [], ◌∷◌, arith,
  if◌then◌else◌, Bool-cases, is_some,
}
use rcon_ui.Text.{Text, ===_refl}
use rcon_ui.Text.Keyed.{find_key, has_key}
use rcon_ui.Discovery.{DiscoveryReport}
use rcon_ui.Api.Request.{Outcome, value, api_error, other_error}
use rcon_ui.Sidebar.{Server}
use rcon_ui.App.{
  State, server_id, selected, keep_selection, servers_loaded, set_report, discovery_settled,
  default_tab, console,
}

find_key-has_key :
    (id : Text) (list : List Server)
    → is_some (find_key server_id id list) ≡ has_key server_id id list
find_key-has_key id [] = refl
find_key-has_key id (s ∷ list) = ground (arith, find_key-has_key id list)

-- A selection that the new list still has is kept.
pub keep_selection_kept :
    (id : Text) (list : List Server)
    → id ≢ []
    → has_key server_id id list ≡ true
    → keep_selection list (some id) ≡ some id
unfolding keep_selection
keep_selection_kept [] list ne h = absurd (ne refl)
keep_selection_kept (c ∷ cs) list ne h = rw h

find_key_first :
    (list : List Server) (s : Server) → is_some (find_key server_id s.id (s ∷ list)) ≡ true
find_key_first list s = ground (arith, ===_refl s.id)

abbrev pub is_empty_list : List Server → Bool
is_empty_list [] = true
is_empty_list (s ∷ list) = false

keep_selection_found :
    (list : List Server) (current : Option Text)
    → is_some
        (elim (keep_selection list current) [ none ↦ none | some id ↦ find_key server_id id list ])
      ≡ not (is_empty_list list)
unfolding keep_selection
keep_selection_found [] none = refl
keep_selection_found [] (some []) = refl
keep_selection_found [] (some (c ∷ cs)) = refl
keep_selection_found (s ∷ list) none = find_key_first list s
keep_selection_found (s ∷ list) (some []) = find_key_first list s
keep_selection_found (s ∷ list) (some (c ∷ cs)) =
    elim (Bool-cases (has_key server_id (c ∷ cs) (s ∷ list))) [
      | inl e ↦ rw e (find_key-has_key (c ∷ cs) (s ∷ list) ∙ e)
      | inr e ↦ rw e (find_key_first list s)
    ]

-- After the servers are loaded a server of the list is selected, or there is none at all: the view
-- never points at a server that is gone.
pub selected-servers_loaded :
    (list : List Server) (s : State)
    → is_some (selected (servers_loaded list s)) ≡ not (is_empty_list list)
unfolding selected servers_loaded
selected-servers_loaded list s = keep_selection_found list s.selected_id

tab-set_report :
    (r : Option DiscoveryReport) (s : State)
    → (s.report ≡ none → s.tab_touched ≡ false → s.tab ≡ console)
    → (set_report r s).tab ≡ (if s.tab_touched then s.tab else default_tab r)
unfolding set_report
tab-set_report (some r) s h = on_report s.report refl
  where
    on_report :
        (old : Option DiscoveryReport)
        → s.report ≡ old
        → (set_report (some r) s).tab ≡ (if s.tab_touched then s.tab else default_tab (some r))
    on_report none e = ground arith
    on_report (some q) e = ground arith
tab-set_report none s h = on_report s.report refl
  where
    on_report :
        (old : Option DiscoveryReport)
        → s.report ≡ old
        → (set_report none s).tab ≡ (if s.tab_touched then s.tab else default_tab none)
    on_report none e = elim (Bool-cases s.tab_touched) [
      | inl t ↦ ground arith
      | inr t ↦ let back : s.tab ≡ console = h e t in ground (arith, back)
    ]
    on_report (some q) e = ground arith

report-set_report : (r : Option DiscoveryReport) (s : State) → (set_report r s).report ≡ r
unfolding set_report
report-set_report r s = ground arith

-- The report moves the tab only while the user has not chosen one since the server was selected, and
-- then to the highest rung that the report supports, whatever the daemon answers.
pub tab-discovery_settled :
    (o : Outcome DiscoveryReport) (s : State)
    → (s.report ≡ none → s.tab_touched ≡ false → s.tab ≡ console)
    → (discovery_settled o s).tab
      ≡ (if s.tab_touched then s.tab else default_tab (discovery_settled o s).report)
unfolding discovery_settled
tab-discovery_settled (value r) s h = rw (report-set_report r s) (tab-set_report r s h)
tab-discovery_settled (api_error status message) s h =
    rw (report-set_report none s) (tab-set_report none s h)
tab-discovery_settled (other_error message) s h =
    rw (report-set_report none s) (tab-set_report none s h)
