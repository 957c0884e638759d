-- ===== src/Enrich/Laws.antt =====
-- What enrichment finds, and what it leaves to the fallback.
use mathlib.Core.List.{Memᴰ}
use rcon_ui.Base.{◌≡◌, ◌↔◌, inl, inr, some, arith, Option-cases}
use rcon_ui.Text.{Text}
use rcon_ui.Text.Keyed.{find_key, find_key_sound, find_key_complete}
use rcon_ui.Catalog.{games, template_by_id}
use rcon_ui.Catalog.Laws.{template_by_id_iff, distinct-options}
use rcon_ui.Catalog.Types.{OptionMeta, CatalogOption, GameTemplate}
use rcon_ui.Enrich.{meta_for}

-- The catalog lists a game under the fingerprint, with an option of that key and metadata.
pub record IsCurated (fingerprint key : Text) (m : OptionMeta) : Type 0 where
  pub game : GameTemplate
  pub option : CatalogOption
  pub listed : Memᴰ game games
  pub under : game.id ≡ fingerprint
  pub offered : Memᴰ option game.options
  pub keyed : option.key ≡ key
  pub carries : option.meta ≡ m

abbrev option_key : CatalogOption → Text
option_key o = o.key

meta_for_sound :
    (fingerprint key : Text) (m : OptionMeta)
    → meta_for fingerprint key ≡ some m
    → IsCurated fingerprint key m
unfolding meta_for
meta_for_sound fingerprint key m h = elim (Option-cases (template_by_id fingerprint)) [
  | inl missing ↦ cc
  | inr (g, found) ↦ elim (Option-cases (find_key option_key key g.options)) [
    | inl missing ↦ ground arith
    | inr (o, hit) ↦
        let (listed, under) = (template_by_id_iff fingerprint g).0 found in
        let (offered, keyed) = find_key_sound option_key key g.options hit in
        record {
          game = g;
          option = o;
          listed = listed;
          under = under;
          offered = offered;
          keyed = keyed;
          carries = ground arith;
        }
  ]
]

meta_for_complete :
    (fingerprint key : Text) (m : OptionMeta)
    → IsCurated fingerprint key m
    → meta_for fingerprint key ≡ some m
unfolding meta_for
meta_for_complete fingerprint key m c = rw (
  (template_by_id_iff fingerprint c.game).1 (c.listed, c.under),
  find_key_complete option_key key c.game.options (distinct-options c.listed) c.offered c.keyed,
  c.carries,
)

-- Enrichment returns metadata exactly when a listed game has the fingerprint as its identifier and
-- an option of that key, and it is that option's metadata, unchanged.
pub meta_for_iff :
    (fingerprint key : Text) (m : OptionMeta)
    → (meta_for fingerprint key ≡ some m) ↔ IsCurated fingerprint key m
meta_for_iff fingerprint key m =
    (meta_for_sound fingerprint key m, meta_for_complete fingerprint key m)
