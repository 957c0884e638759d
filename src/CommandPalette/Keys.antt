-- ===== src/CommandPalette/Keys.antt =====
-- The highlight stays on the list.
use rcon_ui.Base.{
  ℕ, max, zero, suc, ◌≤◌, ◌<◌, ◌≡◌, refl, inl, inr, some, List, [], ◌∷◌, arith, ltb, ltb→lt,
  Bool-cases, length,
}
use mathlib.Core.List.{Memᴰ}
use rcon_ui.Text.{Text}
use rcon_ui.CommandPalette.{
  Command, palette_matches, Palette, PaletteEvent, type, hover, arrow_down, arrow_up, react,
  at_active, enter, opened,
}

module _ {ℓ} {R : Type ℓ} (lower : Text → Text) (commands : List (Command R)) where
  -- The row after the last is never highlighted, and over a list that is not empty some row is.
  pub record IsOnList (p : Palette) : Type 0 where
    pub above : p.active ≤ max 1 (length (palette_matches lower commands p.query))
    pub below : 0 < length (palette_matches lower commands p.query) → 1 ≤ p.active

  react-IsOnList :
      (e : PaletteEvent) (p : Palette) → IsOnList p → IsOnList (react lower commands e p)
  unfolding react
  react-IsOnList (type query) p v = record { above = omega arith; below = λ _. omega arith }
  react-IsOnList (hover i) p v =
      elim (Bool-cases (ltb i (length (palette_matches lower commands p.query)))) [
        | inl h ↦ rw h (record {
          above = omega (arith, ltb→lt i (length (palette_matches lower commands p.query)) h);
          below = λ _. omega arith;
        })
        | inr h ↦ rw h v
      ]
  react-IsOnList arrow_down p v = record { above = omega arith; below = λ h. omega arith }
  react-IsOnList arrow_up p v = record { above = omega (arith, v.above); below = λ _. omega arith }

  -- The state after a series of events, the commands staying as they are.
  abbrev pub react_all : List PaletteEvent → Palette → Palette
  react_all [] p = p
  react_all (e ∷ es) p = react_all es (react lower commands e p)

  react_all-IsOnList :
      (es : List PaletteEvent) (p : Palette) → IsOnList p → IsOnList (react_all es p)
  react_all-IsOnList [] p v = v
  react_all-IsOnList (e ∷ es) p v =
      react_all-IsOnList es (react lower commands e p) (react-IsOnList e p v)

  at_active_lem :
      (xs : List (Command R)) (i : ℕ)
      → 1 ≤ i
      → i ≤ length xs
      → (c : Command R) × Memᴰ c xs × (at_active xs i ≡ some c)
  at_active_lem xs zero h k = absurd (omega arith)
  at_active_lem [] (suc i) h k = absurd (omega arith)
  at_active_lem (x ∷ xs) (suc zero) h k = (x, Memᴰ.head refl, refl)
  at_active_lem (x ∷ xs) (suc (suc i)) h k =
      let (c, m, e) = at_active_lem xs (suc i) (omega arith) (omega arith) in (c, Memᴰ.tail m, e)

  -- After any typing, pointing and arrow keys in a palette just opened, Enter runs a command of the
  -- list shown, whenever that list is not empty.
  pub enter-react_all :
      (es : List PaletteEvent)
      → 0 < length (palette_matches lower commands (react_all es opened).query)
      → (c : Command R) × Memᴰ c (palette_matches lower commands (react_all es opened).query)
        × (enter lower commands (react_all es opened) ≡ some c.run)
  unfolding enter
  enter-react_all es h =
      let v =
        react_all-IsOnList es opened (record { above = omega arith; below = λ _. omega arith }) in
      let (c, m, e) =
        at_active_lem (palette_matches lower commands (react_all es opened).query)
          (react_all es opened).active (v.below h) (omega (arith, v.above)) in
      (c, m, ground (arith, e))
