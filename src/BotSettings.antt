-- ===== src/BotSettings.antt =====
-- crates/engine/src/settings.rs: the settings of the bot, and who may do what under them.
pub mod Gates
use alac_bot.Prelude.{ℕ, Bool, true, false, ◌||◌, Option, none, some, List, [], ◌∷◌, if◌then◌else◌}
use alac_bot.Prelude.Text.{Text, codes, text_eq}

pub data RippingMode : Type 0 where
  live cache_only paused : RippingMode

unfoldable pub as_str : RippingMode → Text
as_str live = codes "live"
as_str cache_only = codes "cache_only"
as_str paused = codes "paused"

unfoldable pub parse : Text → Option RippingMode
unfolding text_eq
parse value =
    if text_eq value (codes "live")
    then some live
    else if text_eq value (codes "cache_only")
    then some cache_only
    else if text_eq value (codes "paused")
    then some paused
    else none

-- The values of other keys are kept as numbers.
pub record Settings : Type 0 where
  pub ripping_mode : RippingMode
  pub album_rip_enabled : Bool
  pub playlist_rip_enabled : Bool
  pub artist_rip_enabled : Bool
  pub txt_rip_enabled : Bool
  pub multi_link_rip_enabled : Bool
  pub max_collection_tracks : ℕ
  pub auto_dump_enabled : Bool
  pub auto_dump_storefronts : List Text
  pub apple_rip_enabled : Bool
  pub qobuz_rip_enabled : Bool
  pub stream_public_url : Option Text
  pub stream_server_port : ℕ
  pub extra : List (Text × ℕ)

abbrev pub default_settings : Settings
default_settings = record {
  ripping_mode = live;
  album_rip_enabled = true;
  playlist_rip_enabled = true;
  artist_rip_enabled = true;
  txt_rip_enabled = true;
  multi_link_rip_enabled = true;
  max_collection_tracks = 50;
  auto_dump_enabled = true;
  auto_dump_storefronts = codes "us" ∷ [];
  apple_rip_enabled = true;
  qobuz_rip_enabled = true;
  stream_public_url = none;
  stream_server_port = 4444;
  extra = [];
}

-- `crates/music`: `Provider`
pub data Provider : Type 0 where
  apple qobuz : Provider

abbrev pub is_live : RippingMode → Bool
is_live live = true
is_live cache_only = false
is_live paused = false

abbrev pub is_not_paused : RippingMode → Bool
is_not_paused live = true
is_not_paused cache_only = true
is_not_paused paused = false

unfoldable pub can_rip_live : Settings → Bool → Bool
can_rip_live s is_admin = if is_admin then true else is_live s.ripping_mode

abbrev pub provider_enabled : Provider → Settings → Bool
provider_enabled apple s = s.apple_rip_enabled
provider_enabled qobuz s = s.qobuz_rip_enabled

unfoldable pub can_rip_provider : Settings → Provider → Bool → Bool
can_rip_provider s provider is_admin = if is_admin then true else provider_enabled provider s

unfoldable pub can_rip_apple : Settings → Bool → Bool
unfolding can_rip_provider
can_rip_apple s is_admin = can_rip_provider s apple is_admin

unfoldable pub can_rip_qobuz : Settings → Bool → Bool
unfolding can_rip_provider
can_rip_qobuz s is_admin = can_rip_provider s qobuz is_admin

unfoldable pub can_serve_cache : Settings → Bool → Bool
can_serve_cache s is_admin = if is_admin then true else is_not_paused s.ripping_mode

unfoldable pub can_rip_album : Settings → Bool → Bool
can_rip_album s is_admin = is_admin || s.album_rip_enabled

unfoldable pub can_rip_playlist : Settings → Bool → Bool
can_rip_playlist s is_admin = is_admin || s.playlist_rip_enabled

unfoldable pub can_rip_artist : Settings → Bool → Bool
can_rip_artist s is_admin = is_admin || s.artist_rip_enabled

unfoldable pub can_rip_txt : Settings → Bool → Bool
can_rip_txt s is_admin = is_admin || s.txt_rip_enabled

unfoldable pub can_rip_multi_link : Settings → Bool → Bool
can_rip_multi_link s is_admin = is_admin || s.multi_link_rip_enabled

unfoldable pub cycled_mode : Settings → RippingMode
cycled_mode s = elim s.ripping_mode [ live ↦ cache_only | cache_only ↦ paused | paused ↦ live ]
