-- ===== src/Interaction/Settings.antt =====
-- crates/bot/src/interaction.rs: the settings' part of the callback protocol.
pub mod Reading
use alac_bot.Prelude.{ℕ, ◌+◌, Bool, ◌&&◌, List, [], ◌∷◌, ◌++◌, if◌then◌else◌}
use alac_bot.Prelude.Text.{Text, codes, text_eq}
use alac_bot.Prelude.Decimal.{parse, print}
use alac_bot.Prelude.Words.{u32_mod}
use alac_bot.Interaction.Grammar.{
  Decode, ok, err, DecodeError, ok_or, match_word, valid_storefront, to_ascii_lowercase, ◌>>=◌,
}
use DecodeError.{unknown, malformed}

pub data SettingFeature : Type 0 where
  apple qobuz album playlist artist txt multi_link auto_dump : SettingFeature

pub data SettingsAction : Type 0 where
  close refresh storefronts mode : SettingsAction
  toggle : SettingFeature → SettingsAction
  limit : ℕ → SettingsAction
  toggle_storefront : Text → SettingsAction

-- The patterns of one part.
abbrev pub settings_words : List (Text × SettingsAction)
settings_words =
    (codes "close", close)
    ∷ (codes "refresh", refresh)
    ∷ (codes "sf_menu", storefronts)
    ∷ (codes "mode", mode)
    ∷ (codes "apple", toggle apple)
    ∷ (codes "qobuz", toggle qobuz)
    ∷ (codes "album", toggle album)
    ∷ (codes "playlist", toggle playlist)
    ∷ (codes "artist", toggle artist)
    ∷ (codes "txt", toggle txt)
    ∷ (codes "multilink", toggle multi_link)
    ∷ (codes "autodump", toggle auto_dump)
    ∷ []

unfoldable pub decode_settings : List Text → Decode SettingsAction
unfolding text_eq valid_storefront
decode_settings (word ∷ []) = ok_or (match_word word settings_words) unknown
decode_settings (word ∷ value ∷ []) =
    if text_eq word (codes "limit")
    then (do n ← ok_or (parse u32_mod value) malformed; ok (limit n))
    else err unknown
decode_settings (word ∷ verb ∷ value ∷ []) =
    if text_eq word (codes "sf") && text_eq verb (codes "toggle") && valid_storefront value
    then ok (toggle_storefront (to_ascii_lowercase value))
    else err unknown
decode_settings _ = err unknown

abbrev pub feature_word : SettingFeature → Text
feature_word apple = codes "apple"
feature_word qobuz = codes "qobuz"
feature_word album = codes "album"
feature_word playlist = codes "playlist"
feature_word artist = codes "artist"
feature_word txt = codes "txt"
feature_word multi_link = codes "multilink"
feature_word auto_dump = codes "autodump"

unfoldable pub encode_settings : SettingsAction → Text
encode_settings close = codes "settings:close"
encode_settings refresh = codes "settings:refresh"
encode_settings storefronts = codes "settings:sf_menu"
encode_settings mode = codes "settings:mode"
encode_settings (toggle feature) = codes "settings:" ++ feature_word feature
encode_settings (limit n) = codes "settings:limit:" ++ print n
encode_settings (toggle_storefront sf) = codes "settings:sf:toggle:" ++ sf
