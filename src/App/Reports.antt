-- ===== src/App/Reports.antt =====
-- Whose report the application shows.
use rcon_ui.Base.{
  ◌≡◌, refl, sym, ap, ◌∙◌, ◌≢◌, ◌⊎◌, inl, inr, Option, none, some, List, [], ◌∷◌, ◌++◌, arith, All,
}
use mathlib.Core.List.{Memᴰ}
use rcon_ui.Text.{Text}
use rcon_ui.Discovery.{DiscoveryReport}
use rcon_ui.Api.Request.{Outcome, value, api_error, other_error}
use rcon_ui.App.{State, select, on_selected, set_report, discovery_settled, rescan_settled}
use rcon_ui.App.Async.{report_of, about, World, IsAbout}

pub All-remove {ℓ} :
    {A : Type ℓ} (P : A → Type 0) (before after : List A) {x : A}
    → All P (before ++ x ∷ after)
    → P x × All P (before ++ after)
All-remove P [] after (p, h) = (p, h)
All-remove P (y ∷ before) after (q, h) =
    let (p, rest) = All-remove P before after h in (p, (q, rest))

pub mem_remove {ℓ} :
    {A : Type ℓ} (before after : List A) {x y : A}
    → Memᴰ y (before ++ x ∷ after)
    → y ≢ x
    → Memᴰ y (before ++ after)
mem_remove [] after (Memᴰ.head e) ne = absurd (ne e)
mem_remove [] after (Memᴰ.tail m) ne = m
mem_remove (z ∷ before) after (Memᴰ.head e) ne = Memᴰ.head e
mem_remove (z ∷ before) after (Memᴰ.tail m) ne = Memᴰ.tail (mem_remove before after m ne)

selected_id-set_report :
    (r : Option DiscoveryReport) (s : State) → (set_report r s).selected_id ≡ s.selected_id
unfolding set_report
selected_id-set_report r s = ground arith

pub report-set_report : (r : Option DiscoveryReport) (s : State) → (set_report r s).report ≡ r
unfolding set_report
report-set_report r s = ground arith

pub select_lem :
    (id : Text) (s : State)
    → id ≢ []
    → ((select id s).selected_id ≡ some id) × ((select id s).report ≡ s.report)
unfolding select on_selected
select_lem [] s ne = absurd (ne refl)
select_lem (c ∷ cs) s ne = ground arith

module _ (owner : DiscoveryReport → Text) where
  -- The report on show is the selected server's, or the reply that will replace it is still to come;
  -- and no request is about another server.
  pub record IsOwn (w : World) : Type 0 where
    pub settled :
        (r : DiscoveryReport)
        → w.app.report ≡ some r
        → (w.app.selected_id ≡ some (owner r))
          ⊎ ((id : Text) × (w.app.selected_id ≡ some id) × Memᴰ (report_of id) w.pending)
    pub current : All (λ p. w.app.selected_id ≡ some (about p)) w.pending

  pub discovery_settled_lem :
      (o : Outcome DiscoveryReport) (s : State) (id : Text)
      → IsAbout owner id o
      → ((discovery_settled o s).selected_id ≡ s.selected_id)
        × ((r : DiscoveryReport) → (discovery_settled o s).report ≡ some r → owner r ≡ id)
  unfolding discovery_settled
  discovery_settled_lem (value v) s id a =
      (selected_id-set_report v s, λ r e. a r (ap value (sym (report-set_report v s) ∙ e)))
  discovery_settled_lem (api_error status message) s id a =
      (selected_id-set_report none s, λ r e. cc (sym (report-set_report none s) ∙ e))
  discovery_settled_lem (other_error message) s id a =
      (selected_id-set_report none s, λ r e. cc (sym (report-set_report none s) ∙ e))

  pub rescan_settled_lem :
      (o : Outcome DiscoveryReport) (s : State) (id : Text)
      → IsAbout owner id o
      → ((rescan_settled o s).selected_id ≡ s.selected_id)
        × ((r : DiscoveryReport)
            → (rescan_settled o s).report ≡ some r
            → (owner r ≡ id) ⊎ (s.report ≡ some r))
  unfolding rescan_settled
  rescan_settled_lem (value v) s id a =
      (selected_id-set_report v s, λ r e. inl (a r (ap value (sym (report-set_report v s) ∙ e))))
  rescan_settled_lem (api_error status message) s id a = (refl, λ r e. inr e)
  rescan_settled_lem (other_error message) s id a = (refl, λ r e. inr e)
