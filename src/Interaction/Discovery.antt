-- ===== src/Interaction/Discovery.antt =====
-- crates/bot/src/interaction.rs: the part of the callback protocol on discovery.
pub mod Reading
use alac_bot.Prelude.{◌&&◌, List, [], ◌∷◌, ◌++◌, if◌then◌else◌}
use alac_bot.Prelude.Text.{Text, codes, text_eq}
use alac_bot.Interaction.Grammar.{
  Decode, ok, err, DecodeError, valid_id, valid_source, valid_storefront, to_ascii_lowercase,
}
use DecodeError.{unknown}

pub data DiscoveryAction : Type 0 where
  close menu : DiscoveryAction
  discover reroll dump : Text → Text → DiscoveryAction

unfoldable pub decode_discovery : List Text → Decode DiscoveryAction
unfolding text_eq valid_id valid_source valid_storefront to_ascii_lowercase
decode_discovery (word ∷ []) =
    if text_eq word (codes "close")
    then ok close
    else if text_eq word (codes "menu")
    then ok menu
    else err unknown
decode_discovery (word ∷ source ∷ []) =
    if text_eq word (codes "src") && valid_source source
    then ok (discover source (codes "us"))
    else if text_eq word (codes "reroll") && valid_source source
    then ok (reroll source (codes "us"))
    else err unknown
decode_discovery (word ∷ a ∷ storefront ∷ []) =
    if text_eq word (codes "src") && (valid_source a && valid_storefront storefront)
    then ok (discover a (to_ascii_lowercase storefront))
    else if text_eq word (codes "reroll") && (valid_source a && valid_storefront storefront)
    then ok (reroll a (to_ascii_lowercase storefront))
    else if text_eq word (codes "dump") && (valid_id a && valid_storefront storefront)
    then ok (dump a (to_ascii_lowercase storefront))
    else err unknown
decode_discovery _ = err unknown

unfoldable pub encode_discovery : DiscoveryAction → Text
encode_discovery close = codes "random:close"
encode_discovery menu = codes "random:menu"
encode_discovery (discover source storefront) = codes "random:src:" ++ (source ++ b':' ∷ storefront)
encode_discovery (reroll source storefront) =
    codes "random:reroll:" ++ (source ++ b':' ∷ storefront)
encode_discovery (dump album_id storefront) =
    codes "random:dump:" ++ (album_id ++ b':' ∷ storefront)
