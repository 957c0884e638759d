-- ===== src/Probe/White.antt =====
-- `strings.TrimSpace` of Go: the white space of Unicode at both ends.
use rcon_ui.Base.{ℕ, Bool, ◌&&◌, ◌||◌, [], ◌∷◌, leb, ◌==◌, if◌then◌else◌}
use rcon_ui.Text.{Text, is_empty}

-- `unicode.IsSpace`
unfoldable pub is_white : ℕ → Bool
is_white c =
    (leb 9 c && leb c 13)
    || ((c == 0x20)
        || ((c == 0x85)
            || ((c == 0xA0)
                || ((c == 0x1680)
                    || ((leb 0x2000 c && leb c 0x200A)
                        || ((c == 0x2028)
                            || ((c == 0x2029)
                                || ((c == 0x202F) || ((c == 0x205F) || (c == 0x3000))))))))))

unfoldable pub drop_white : Text → Text
unfolding is_white
drop_white [] = []
drop_white (c ∷ s) = let rest = drop_white s in if is_white c then rest else c ∷ s

unfoldable pub drop_last_white : Text → Text
unfolding is_white
drop_last_white [] = []
drop_last_white (c ∷ s) =
    let rest = drop_last_white s in if is_white c && is_empty rest then [] else c ∷ rest

unfoldable pub trim_space : Text → Text
unfolding drop_last_white
trim_space s = drop_last_white (drop_white s)
