-- ===== src/App/Stale.antt =====
-- A reply that comes after the user has gone to another server.
use rcon_ui.Base.{
  ◌≡◌, refl, sym, ◌∙◌, subst, ◌≢◌, inl, inr, false, Option, none, some, [], ◌∷◌, ◌++◌, Bool-cases,
}
use rcon_ui.Text.{Text, ◌===◌, ===_iff}
use rcon_ui.Discovery.{DiscoveryReport}
use rcon_ui.Api.Request.{Outcome, value, api_error}
use rcon_ui.App.{State, select, discovery_settled, same_id}
use rcon_ui.App.Async.{
  macros_of, history_of, report_of, World, asked, IsAbout, selects, reports, Reach, here, next,
}
use rcon_ui.App.Reports.{select_lem, discovery_settled_lem, report-set_report}

-- The test on a text that is known.
same_id_other : (old : Option Text) (a b : Text) → old ≡ some a → a ≢ b → same_id old b ≡ false
same_id_other none a b e ne = cc
same_id_other (some o) a b e ne = elim (Bool-cases (o === b)) [
  | inl t ↦ absurd (ne (let same : o ≡ a = cc in sym same ∙ (===_iff o b).0 t))
  | inr f ↦ f
]

module _ (owner : DiscoveryReport → Text) where
  shown : (r : DiscoveryReport) (s : State) → (discovery_settled (value (some r)) s).report ≡ some r
  unfolding discovery_settled
  shown r s = report-set_report (some r) s

  -- From any state with no reply missing: the user selects a server `a` and, before its report is in,
  -- another server `b`, which was never discovered; when the report of `a` comes last it stays on
  -- show for `b`, with no report's reply left to come.
  pub stale_report :
      (s : State) (a b : Text) (r : DiscoveryReport)
      → a ≢ []
      → b ≢ []
      → same_id s.selected_id a ≡ false
      → a ≢ b
      → owner r ≡ a
      → (v : World) × Reach owner (record { app = s; pending = [] }) v
        × (v.app.selected_id ≡ some b)
        × (v.app.report ≡ some r)
        × (v.pending ≡ macros_of a ∷ history_of a ∷ macros_of b ∷ history_of b ∷ [])
  stale_report s a b r full_a full_b other ne mine =
      let (at_a, kept_a) = select_lem a s full_a in
      let (at_b, kept_b) = select_lem b (select a s) full_b in
      let missing : Outcome DiscoveryReport = api_error 404 [] in
      let w0 : World = record { app = s; pending = [] } in
      let w1 : World = record { app = select a s; pending = asked a } in
      let w2 : World = record { app = select b (select a s); pending = asked a ++ asked b } in
      let first = macros_of a ∷ history_of a ∷ [] in
      let w3 : World = record {
        app = discovery_settled missing w2.app;
        pending = first ++ report_of a ∷ macros_of b ∷ history_of b ∷ [];
      } in
      let none_about : IsAbout owner b missing = λ r' e. cc in
      let some_about : IsAbout owner a (value (some r)) =
        λ r' e. (let eq : r ≡ r' = cc in subst (λ q. owner q ≡ a) eq mine) in
      let (kept_3, no_report) = discovery_settled_lem owner missing w2.app b none_about in
      let (kept_4, one_report) = discovery_settled_lem owner (value (some r)) w3.app a some_about in
      (
        record {
          app = discovery_settled (value (some r)) w3.app;
          pending = first ++ macros_of b ∷ history_of b ∷ [];
        },
        next
            (next
              (next (next here (selects w0 a full_a other))
                (selects w1 b full_b (same_id_other (w1.app.selected_id) a b at_a ne)))
              (reports w2 (first ++ report_of a ∷ macros_of b ∷ history_of b ∷ []) [] b missing refl
                none_about))
            (reports w3 first (macros_of b ∷ history_of b ∷ []) a (value (some r)) refl some_about),
        kept_4 ∙ kept_3 ∙ at_b,
        shown r w3.app,
        refl,
      )
