-- ===== src/Interaction.antt =====
-- crates/bot/src/interaction.rs: the callback protocol, `TelegramAction` with its `decode` and
-- `encode`. A payload is the text that Telegram returns when a button is pressed.
pub mod Grammar
pub mod Settings
pub mod Report
pub mod Discovery
pub mod Parts
pub mod RoundTrip
use alac_bot.Prelude.{ℕ, ◌+◌, Bool, none, some, List, [], ◌∷◌, ◌++◌, ltb, if◌then◌else◌}
use alac_bot.Prelude.Text.{Text, codes, text_eq, byte_len, split_on}
use alac_bot.Prelude.Decimal.{print}
use alac_bot.Interaction.Grammar.{
  Decode, ok, err, DecodeError, ok_or, match_word, valid_token, one, parse_page, ◌>>=◌,
}
use alac_bot.Interaction.Settings.{SettingsAction, decode_settings, encode_settings}
use alac_bot.Interaction.Report.{ReportAction, decode_report, encode_report}
use alac_bot.Interaction.Discovery.{DiscoveryAction, decode_discovery, encode_discovery}
use DecodeError.{empty, unknown, malformed, oversized}

pub data DashboardAction : Type 0 where
  previous next refresh : DashboardAction

pub data TelegramAction : Type 0 where
  dashboard : DashboardAction → ℕ → TelegramAction
  cancel : Text → TelegramAction
  settings : SettingsAction → TelegramAction
  report : ReportAction → TelegramAction
  discovery : DiscoveryAction → TelegramAction
  deliver_cached get : Text → TelegramAction
  search_close : TelegramAction
  auth_page : ℕ → TelegramAction
  auth_close : TelegramAction
  confirm_delete cancel_delete confirm_import cancel_import : Text → TelegramAction
  noop : TelegramAction

abbrev pub max_payload : ℕ
max_payload = 256

abbrev pub dashboard_words : List (Text × DashboardAction)
dashboard_words = (codes "prev", previous) ∷ (codes "next", next) ∷ (codes "refresh", refresh) ∷ []

unfoldable pub decode_dashboard : List Text → Decode TelegramAction
unfolding text_eq parse_page
decode_dashboard (word ∷ value ∷ []) = do
  action ← ok_or (match_word word dashboard_words) unknown
  page ← parse_page value
  ok (dashboard action page)
decode_dashboard _ = err malformed

-- One part that is a token.
unfoldable pub decode_token : List Text → Decode Text
unfolding one valid_token
decode_token rest = do token ← one rest; if valid_token token then ok token else err malformed

-- What stands after the prefix, by the prefix.
abbrev pub features : List Text → List (Text × Decode TelegramAction)
features rest =
    (codes "cancel", one rest >>= λ x. ok (cancel x))
    ∷ (codes "cached", one rest >>= λ x. ok (deliver_cached x))
    ∷ (codes "get", one rest >>= λ x. ok (get x))
    ∷ (codes "authpage", one rest >>= λ x. (parse_page x >>= λ n. ok (auth_page n)))
    ∷ (codes "dashboard", decode_dashboard rest)
    ∷ (codes "settings", decode_settings rest >>= λ x. ok (settings x))
    ∷ (codes "report", decode_report rest >>= λ x. ok (report x))
    ∷ (codes "random", decode_discovery rest >>= λ x. ok (discovery x))
    ∷ (codes "delete_confirm", decode_token rest >>= λ x. ok (confirm_delete x))
    ∷ (codes "delete_cancel", decode_token rest >>= λ x. ok (cancel_delete x))
    ∷ (codes "import_confirm", decode_token rest >>= λ x. ok (confirm_import x))
    ∷ (codes "import_cancel", decode_token rest >>= λ x. ok (cancel_import x))
    ∷ []

unfoldable pub decode_parts : List Text → Decode TelegramAction
unfolding text_eq
decode_parts [] = err malformed
decode_parts (prefix ∷ rest) = elim (match_word prefix (features rest)) [
  | some action ↦ action
  | none ↦ err unknown
]

unfoldable pub decode : Text → Decode TelegramAction
unfolding decode_parts byte_len text_eq split_on
decode data_text =
    if text_eq data_text []
    then err empty
    else if ltb max_payload (byte_len data_text)
    then err oversized
    else if text_eq data_text (codes "search_close")
    then ok search_close
    else if text_eq data_text (codes "authclose")
    then ok auth_close
    else if text_eq data_text (codes "noop")
    then ok noop
    else decode_parts (split_on b':' data_text)

abbrev pub dashboard_word : DashboardAction → Text
dashboard_word previous = codes "prev"
dashboard_word next = codes "next"
dashboard_word refresh = codes "refresh"

unfoldable pub encode : TelegramAction → Text
unfolding encode_settings encode_report encode_discovery
encode (dashboard action page) = codes "dashboard:" ++ (dashboard_word action ++ b':' ∷ print page)
encode (cancel job_id) = codes "cancel:" ++ job_id
encode (settings action) = encode_settings action
encode (report action) = encode_report action
encode (discovery action) = encode_discovery action
encode (deliver_cached track_id) = codes "cached:" ++ track_id
encode (get track_id) = codes "get:" ++ track_id
encode search_close = codes "search_close"
encode (auth_page page) = codes "authpage:" ++ print page
encode auth_close = codes "authclose"
encode (confirm_delete token) = codes "delete_confirm:" ++ token
encode (cancel_delete token) = codes "delete_cancel:" ++ token
encode (confirm_import token) = codes "import_confirm:" ++ token
encode (cancel_import token) = codes "import_cancel:" ++ token
encode noop = codes "noop"
