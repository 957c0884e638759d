-- ===== src/App/Calm.antt =====
-- The report on show is the selected server's once the replies are in, if a server is selected only
-- when no reply is missing; without this it need not be.
use rcon_ui.Base.{
  ◌≡◌, refl, sym, ap, ◌∙◌, ◌≢◌, ◌⊎◌, inl, inr, none, some, List, [], ◌∷◌, ◌++◌, arith, All-append,
}
use mathlib.Core.List.{Memᴰ}
use rcon_ui.Text.{Text}
use rcon_ui.Discovery.{DiscoveryReport}
use rcon_ui.App.{
  State, rescan_started, rescan_settled, macros_settled, history_settled, choose_tab, execute,
}
use rcon_ui.App.Async.{
  Pending, macros_of, history_of, report_of, rescan_of, about, World, Step, selects, rescans,
  reports, rescanned, macros_come, history_comes, chooses, executes,
}
use rcon_ui.App.Reports.{
  IsOwn, All-remove, mem_remove, select_lem, discovery_settled_lem, rescan_settled_lem,
}

module _ (owner : DiscoveryReport → Text) where
  -- A step that selects a server comes when no reply is missing.
  abbrev pub IsCalm : {u v : World} → Step owner u v → Type 0
  IsCalm (selects w id ne other) = w.pending ≡ []
  IsCalm _ = Unit

  pub data CalmReach (w : World) : World → Type 0 where
    calm_here : CalmReach w w
    calm_next : {u v : World} → CalmReach w u → (st : Step owner u v) → IsCalm st → CalmReach w v

  selected_id-execute :
      (c : Text) (s : State)
      → ((execute c s).selected_id ≡ s.selected_id) × ((execute c s).report ≡ s.report)
  unfolding execute
  selected_id-execute c s = ground arith

  append_mem : (q : Pending) (xs ys : List Pending) → Memᴰ q xs → Memᴰ q (xs ++ ys)
  append_mem q [] ys m = elim m [ ]
  append_mem q (x ∷ xs) ys (Memᴰ.head e) = Memᴰ.head e
  append_mem q (x ∷ xs) ys (Memᴰ.tail m) = Memᴰ.tail (append_mem q xs ys m)

  -- A reply of another kind than a report's is taken off the list.
  IsOwn-drop :
      (w : World) (s : State) (before after : List Pending) (p : Pending)
      → IsOwn owner w
      → w.pending ≡ before ++ p ∷ after
      → ((id : Text) → report_of id ≢ p)
      → s.selected_id ≡ w.app.selected_id
      → ((r : DiscoveryReport) → s.report ≡ some r → (owner r ≡ about p) ⊎ (w.app.report ≡ some r))
      → IsOwn owner (record { app = s; pending = before ++ after })
  IsOwn-drop w s before after p v e other same shown =
      let (mine, rest) =
        All-remove (λ q. w.app.selected_id ≡ some (about q)) before after (rw e at v.current) in
      record {
        settled = λ r h. elim (shown r h) [
          | inl o ↦ inl (same ∙ mine ∙ ap some (sym o))
          | inr old ↦ elim (v.settled r old) [
            | inl own ↦ inl (same ∙ own)
            | inr (id, sel, m) ↦
                inr (id, same ∙ sel, mem_remove before after (rw e at m) (other id))
          ]
        ];
        current = rw same rest;
      }

  Step-IsOwn : {u v : World} (st : Step owner u v) → IsCalm st → IsOwn owner u → IsOwn owner v
  unfolding rescan_started choose_tab macros_settled history_settled
  Step-IsOwn (selects w id ne other) quiet v =
      let (sel, kept) = select_lem id w.app ne in
      rw quiet (record {
        settled = λ r h. inr (id, sel, Memᴰ.tail (Memᴰ.tail (Memᴰ.head refl)));
        current = (sel, (sel, (sel, tt)));
      })
  Step-IsOwn (rescans w id sel) calm v = record {
    settled = λ r h. elim (v.settled r h) [
      | inl own ↦ inl own
      | inr (j, old, m) ↦ inr (j, old, append_mem (report_of j) w.pending (rescan_of id ∷ []) m)
    ];
    current =
        All-append (λ q. (rescan_started w.app).selected_id ≡ some (about q)) w.pending
          (rescan_of id ∷ []) v.current (sel, tt);
  }
  Step-IsOwn (reports w before after id o e a) calm v =
      let (same, shown) = discovery_settled_lem owner o w.app id a in
      let (mine, rest) =
        All-remove (λ q. w.app.selected_id ≡ some (about q)) before after (rw e at v.current) in
      record {
        settled = λ r h. inl (same ∙ mine ∙ ap some (sym (shown r h)));
        current = rw same rest;
      }
  Step-IsOwn (rescanned w before after id o e a) calm v =
      let (same, shown) = rescan_settled_lem owner o w.app id a in
      IsOwn-drop w (rescan_settled o w.app) before after (rescan_of id) v e (λ j q. cc) same shown
  Step-IsOwn (macros_come w before after id ms e) calm v =
      IsOwn-drop w (macros_settled ms w.app) before after (macros_of id) v e (λ j q. cc) refl
        (λ r h. inr h)
  Step-IsOwn (history_comes w before after id h e) calm v =
      IsOwn-drop w (history_settled h w.app) before after (history_of id) v e (λ j q. cc) refl
        (λ r h'. inr h')
  Step-IsOwn (chooses w t) calm v = record { settled = λ r h. v.settled r h; current = v.current }
  Step-IsOwn (executes w c) calm v =
      let (same, shown) = selected_id-execute c w.app in
      record { settled = λ r h. rw same (v.settled r (sym shown ∙ h)); current = rw same v.current }

  IsOwn-CalmReach : {u v : World} → CalmReach u v → IsOwn owner u → IsOwn owner v
  IsOwn-CalmReach calm_here own = own
  IsOwn-CalmReach (calm_next {u} {v} before st calm) own =
      Step-IsOwn st calm (IsOwn-CalmReach before own)

  -- Where a server is selected only when no reply is missing, the report on show once all replies are
  -- in is the selected server's, if no report was on show and no reply was missing at the start.
  pub calm_report :
      {u v : World}
      → u.app.report ≡ none
      → u.pending ≡ []
      → CalmReach u v
      → v.pending ≡ []
      → (r : DiscoveryReport) → v.app.report ≡ some r
      → v.app.selected_id ≡ some (owner r)
  calm_report {u} {v} blank idle steps quiet r h =
      let start : IsOwn owner u = record { settled = λ r' h'. cc; current = rw idle tt } in
      let own = IsOwn-CalmReach steps start in
      elim (own.settled r h) [ inl same ↦ same | inr (id, sel, m) ↦ elim (rw quiet at m) [ ] ]
