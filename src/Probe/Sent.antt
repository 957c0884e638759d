-- ===== src/Probe/Sent.antt =====
-- What a discovery run sends, to a server of any kind.
use rcon_ui.Base.{
  ◌≡◌, refl, sym, ap, ◌∙◌, inl, inr, Bool, true, Option, List, [], ◌∷◌, ◌++◌, map, append-nil,
  append_assoc, Bool-cases, all,
}
use rcon_ui.Probe.Pattern.{is_letter}
use rcon_ui.Text.{Text, codes}
use rcon_ui.Discovery.{DiscoveryReport}
use rcon_ui.Probe.Zomboid.{looks_like_zomboid_options}
use rcon_ui.Probe.Minecraft.{
  sweep, gamerules, discover_gamerules, query, looks_like_minecraft_gamerule,
}
use rcon_ui.Probe.Discover.{
  Fingerprint, zomboid, minecraft, unknown, fingerprint_name, make_report, recognised,
  probe_gamerule, discover,
}

-- A server with the commands that it was sent, the first one first.
unfoldable pub record_sent :
    {S : Type 0}
    → (Text → S → Option Text × S)
    → Text
    → S × List Text
    → Option Text × (S × List Text)
record_sent exec cmd (s, sent) = let (answer, s1) = exec cmd s in (answer, (s1, sent ++ cmd ∷ []))

abbrev pub first_probe : Text
first_probe = codes "showoptions"

abbrev pub second_probe : Text
second_probe = codes "gamerule randomTickSpeed"

abbrev pub sent_for : Fingerprint → List Text
sent_for zomboid = first_probe ∷ codes "help" ∷ []
sent_for minecraft =
    first_probe ∷ second_probe ∷ map (λ rule. codes "gamerule " ++ rule) gamerules
    ++ codes "help" ∷ []
sent_for unknown = first_probe ∷ second_probe ∷ codes "help" ∷ []

-- A run that found a game, and what it sent.
abbrev pub IsRun : {S : Type 0} → DiscoveryReport × (S × List Text) → Type 0
IsRun (r, (s, sent)) =
    (f : Fingerprint) × (r.fingerprint ≡ fingerprint_name f) × (sent ≡ sent_for f)

module _ {S : Type 0} (is_float : Text → Bool) (at : Text) (exec : Text → S → Option Text × S) where
  sent-sweep :
      (rules : List Text) (s : S) (sent : List Text)
      → (sweep is_float (record_sent exec) rules (s, sent)).1.1
        ≡ sent ++ map (λ rule. codes "gamerule " ++ rule) rules
  unfolding sweep record_sent
  sent-sweep [] s sent = sym (append-nil sent)
  sent-sweep (rule ∷ rules) s sent =
      sent-sweep rules (exec (query rule) s).1 (sent ++ query rule ∷ [])
      ∙ append_assoc sent (query rule ∷ []) (map (λ rule. codes "gamerule " ++ rule) rules)

  probe_gamerule-sent :
      (s : S) → IsRun (probe_gamerule is_float at (record_sent exec) (s, first_probe ∷ []))
  unfolding probe_gamerule discover_gamerules record_sent make_report
  probe_gamerule-sent s =
      let (answer, s1) = exec second_probe s in
      elim (Bool-cases (recognised looks_like_minecraft_gamerule answer)) [
        | inl e ↦ rw e (
          minecraft,
          refl,
          ap (◌++ codes "help" ∷ []) (sent-sweep gamerules s1 (first_probe ∷ second_probe ∷ [])),
        )
        | inr e ↦ rw e (unknown, refl, refl)
      ]

  -- A discovery run sends nothing but `showoptions`, `gamerule` with a rule's name alone, and `help`:
  -- for each game that it reports, exactly one list of commands. The names of the rules are letters,
  -- so that no value follows one.
  pub sent_lem :
      (s : S)
      → IsRun (discover is_float at (record_sent exec) (s, []))
        × (all (all is_letter) gamerules ≡ true)
  unfolding discover record_sent make_report
  sent_lem s =
      let (dump, s1) = exec first_probe s in
      let run : IsRun (discover is_float at (record_sent exec) (s, [])) =
        elim (Bool-cases (recognised (looks_like_zomboid_options is_float) dump)) [
          | inl e ↦ rw e (zomboid, refl, refl)
          | inr e ↦ rw e (probe_gamerule-sent s1)
        ] in
      (run, refl)
