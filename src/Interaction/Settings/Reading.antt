-- ===== src/Interaction/Settings/Reading.antt =====
-- crates/bot/src/interaction.rs: what encoding writes for the settings is read back.
use alac_bot.Prelude.{◌<◌, ◌≡◌, refl, List, [], ◌∷◌}
use alac_bot.Prelude.Text.{Text, codes}
use alac_bot.Prelude.Decimal.{print, parse-print}
use alac_bot.Prelude.Words.{u32_mod}
use alac_bot.Interaction.Grammar.{ok}
use alac_bot.Interaction.Parts.{
  AreParts, join, IsStorefront, valid_storefront-is_part, print-is_part,
}
use alac_bot.Interaction.Settings.{
  SettingsAction, SettingFeature, decode_settings, encode_settings, feature_word,
}
use SettingsAction.{close, refresh, storefronts, mode, toggle, limit, toggle_storefront}
use SettingFeature.{apple, qobuz, album, playlist, artist, txt, multi_link, auto_dump}

-- The fields of an action are in the grammar.
abbrev pub IsSettings : SettingsAction → Type 0
IsSettings close = Unit
IsSettings refresh = Unit
IsSettings storefronts = Unit
IsSettings mode = Unit
IsSettings (toggle feature) = Unit
IsSettings (limit n) = n < u32_mod
IsSettings (toggle_storefront sf) = IsStorefront sf

abbrev pub settings_parts : SettingsAction → List Text
settings_parts close = codes "close" ∷ []
settings_parts refresh = codes "refresh" ∷ []
settings_parts storefronts = codes "sf_menu" ∷ []
settings_parts mode = codes "mode" ∷ []
settings_parts (toggle feature) = feature_word feature ∷ []
settings_parts (limit n) = codes "limit" ∷ print n ∷ []
settings_parts (toggle_storefront sf) = codes "sf" ∷ codes "toggle" ∷ sf ∷ []

pub encode_settings-join :
    (a : SettingsAction) → encode_settings a ≡ join (codes "settings") (settings_parts a)
unfolding encode_settings
encode_settings-join close = refl
encode_settings-join refresh = refl
encode_settings-join storefronts = refl
encode_settings-join mode = refl
encode_settings-join (toggle apple) = refl
encode_settings-join (toggle qobuz) = refl
encode_settings-join (toggle album) = refl
encode_settings-join (toggle playlist) = refl
encode_settings-join (toggle artist) = refl
encode_settings-join (toggle txt) = refl
encode_settings-join (toggle multi_link) = refl
encode_settings-join (toggle auto_dump) = refl
encode_settings-join (limit n) = refl
encode_settings-join (toggle_storefront sf) = refl

pub settings-AreParts : (a : SettingsAction) → IsSettings a → AreParts (settings_parts a)
settings-AreParts close h = (refl, tt)
settings-AreParts refresh h = (refl, tt)
settings-AreParts storefronts h = (refl, tt)
settings-AreParts mode h = (refl, tt)
settings-AreParts (toggle apple) h = (refl, tt)
settings-AreParts (toggle qobuz) h = (refl, tt)
settings-AreParts (toggle album) h = (refl, tt)
settings-AreParts (toggle playlist) h = (refl, tt)
settings-AreParts (toggle artist) h = (refl, tt)
settings-AreParts (toggle txt) h = (refl, tt)
settings-AreParts (toggle multi_link) h = (refl, tt)
settings-AreParts (toggle auto_dump) h = (refl, tt)
settings-AreParts (limit n) h = (refl, (print-is_part n, tt))
settings-AreParts (toggle_storefront sf) h = (refl, (refl, (valid_storefront-is_part sf h.0, tt)))

pub decode_settings-parts :
    (a : SettingsAction) → IsSettings a → decode_settings (settings_parts a) ≡ ok a
unfolding decode_settings
decode_settings-parts close h = refl
decode_settings-parts refresh h = refl
decode_settings-parts storefronts h = refl
decode_settings-parts mode h = refl
decode_settings-parts (toggle apple) h = refl
decode_settings-parts (toggle qobuz) h = refl
decode_settings-parts (toggle album) h = refl
decode_settings-parts (toggle playlist) h = refl
decode_settings-parts (toggle artist) h = refl
decode_settings-parts (toggle txt) h = refl
decode_settings-parts (toggle multi_link) h = refl
decode_settings-parts (toggle auto_dump) h = refl
decode_settings-parts (limit n) h = rw (parse-print u32_mod n h) refl
decode_settings-parts (toggle_storefront sf) h = rw (h.0, h.1) refl
