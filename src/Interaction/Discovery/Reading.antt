-- ===== src/Interaction/Discovery/Reading.antt =====
-- crates/bot/src/interaction.rs: what encoding writes for discovery is read back.
use alac_bot.Prelude.{◌≡◌, refl, true, List, [], ◌∷◌}
use alac_bot.Prelude.Text.{Text, codes}
use alac_bot.Interaction.Grammar.{ok, valid_id, valid_source}
use alac_bot.Interaction.Parts.{
  AreParts, join, IsStorefront, valid_id-is_part, valid_storefront-is_part, valid_source-is_part,
}
use alac_bot.Interaction.Discovery.{DiscoveryAction, decode_discovery, encode_discovery}
use DiscoveryAction.{close, menu, discover, reroll, dump}

abbrev pub IsDiscovery : DiscoveryAction → Type 0
IsDiscovery close = Unit
IsDiscovery menu = Unit
IsDiscovery (discover source storefront) = (valid_source source ≡ true) × IsStorefront storefront
IsDiscovery (reroll source storefront) = (valid_source source ≡ true) × IsStorefront storefront
IsDiscovery (dump album_id storefront) = (valid_id album_id ≡ true) × IsStorefront storefront

abbrev pub discovery_parts : DiscoveryAction → List Text
discovery_parts close = codes "close" ∷ []
discovery_parts menu = codes "menu" ∷ []
discovery_parts (discover source storefront) = codes "src" ∷ source ∷ storefront ∷ []
discovery_parts (reroll source storefront) = codes "reroll" ∷ source ∷ storefront ∷ []
discovery_parts (dump album_id storefront) = codes "dump" ∷ album_id ∷ storefront ∷ []

pub encode_discovery-join :
    (a : DiscoveryAction) → encode_discovery a ≡ join (codes "random") (discovery_parts a)
unfolding encode_discovery
encode_discovery-join close = refl
encode_discovery-join menu = refl
encode_discovery-join (discover source storefront) = refl
encode_discovery-join (reroll source storefront) = refl
encode_discovery-join (dump album_id storefront) = refl

pub discovery-AreParts : (a : DiscoveryAction) → IsDiscovery a → AreParts (discovery_parts a)
discovery-AreParts close h = (refl, tt)
discovery-AreParts menu h = (refl, tt)
discovery-AreParts (discover source storefront) h =
    (refl, (valid_source-is_part source h.0, (valid_storefront-is_part storefront h.1.0, tt)))
discovery-AreParts (reroll source storefront) h =
    (refl, (valid_source-is_part source h.0, (valid_storefront-is_part storefront h.1.0, tt)))
discovery-AreParts (dump album_id storefront) h =
    (refl, (valid_id-is_part album_id h.0, (valid_storefront-is_part storefront h.1.0, tt)))

pub decode_discovery-parts :
    (a : DiscoveryAction) → IsDiscovery a → decode_discovery (discovery_parts a) ≡ ok a
unfolding decode_discovery
decode_discovery-parts close h = refl
decode_discovery-parts menu h = refl
decode_discovery-parts (discover source storefront) h = rw (h.0, h.1.0, h.1.1) refl
decode_discovery-parts (reroll source storefront) h = rw (h.0, h.1.0, h.1.1) refl
decode_discovery-parts (dump album_id storefront) h = rw (h.0, h.1.0, h.1.1) refl
