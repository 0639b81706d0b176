-- ===== src/Interaction/RoundTrip.antt =====
-- crates/bot/src/interaction.rs: `decode` of what `encode` writes.
use alac_bot.Prelude.{ℕ, ◌<◌, ◌≤◌, ◌≡◌, refl, sym, ◌∙◌, true, false, List, [], ◌∷◌, arith, ltb}
use alac_bot.Prelude.Text.{Text, codes, text_eq, byte_len}
use alac_bot.Prelude.Decimal.{print, parse-print, text_eq-print}
use alac_bot.Prelude.Words.{u64_mod}
use alac_bot.Interaction.Grammar.{ok, valid_token, one, parse_page}
use alac_bot.Interaction.Settings.Reading.{
  IsSettings, settings_parts, encode_settings-join, settings-AreParts, decode_settings-parts,
}
use alac_bot.Interaction.Report.Reading.{
  IsReport, report_parts, encode_report-join, report-AreParts, decode_report-parts,
}
use alac_bot.Interaction.Discovery.Reading.{
  IsDiscovery, discovery_parts, encode_discovery-join, discovery-AreParts, decode_discovery-parts,
}
use alac_bot.Interaction.Parts.{
  AreParts, join, is_part, split_on-joined, valid_token-is_part, print-is_part,
}
use alac_bot.Interaction.{
  DashboardAction, TelegramAction, max_payload, decode, decode_parts, decode_dashboard,
  decode_token, encode, dashboard_word,
}
use DashboardAction.{previous, next, refresh}
use TelegramAction.{
  dashboard, cancel, settings, report, discovery, deliver_cached, get, search_close, auth_page,
  auth_close, confirm_delete, cancel_delete, confirm_import, cancel_import, noop,
}

abbrev pub IsPage : ℕ → Type 0
IsPage n = (0 < n) × (n < u64_mod)

-- A text of a payload's own: not empty, and without a colon.
abbrev pub IsPayload : Text → Type 0
IsPayload s = (text_eq s [] ≡ false) × (is_part s ≡ true)

-- The fields of the action are in the grammar of its feature.
abbrev pub IsEncodable : TelegramAction → Type 0
IsEncodable (dashboard action page) = IsPage page
IsEncodable (cancel job_id) = IsPayload job_id
IsEncodable (settings action) = IsSettings action
IsEncodable (report action) = IsReport action
IsEncodable (discovery action) = IsDiscovery action
IsEncodable (deliver_cached track_id) = IsPayload track_id
IsEncodable (get track_id) = IsPayload track_id
IsEncodable search_close = Unit
IsEncodable (auth_page page) = IsPage page
IsEncodable auth_close = Unit
IsEncodable (confirm_delete token) = valid_token token ≡ true
IsEncodable (cancel_delete token) = valid_token token ≡ true
IsEncodable (confirm_import token) = valid_token token ≡ true
IsEncodable (cancel_import token) = valid_token token ≡ true
IsEncodable noop = Unit

-- The text is none of the three that stand alone.
abbrev IsSplit : Text → Type 0
IsSplit s =
    (text_eq s [] ≡ false)
    × (text_eq s (codes "search_close") ≡ false)
    × (text_eq s (codes "authclose") ≡ false)
    × (text_eq s (codes "noop") ≡ false)

decode-join :
    (p : Text) (parts : List Text)
    → IsSplit (join p parts)
    → AreParts (p ∷ parts)
    → byte_len (join p parts) ≤ max_payload
    → decode (join p parts) ≡ decode_parts (p ∷ parts)
unfolding decode
decode-join p parts s h l =
    let e : ltb max_payload (byte_len (join p parts)) ≡ false = ground arith in
    rw (s.0, e, s.1, s.2, s.3, split_on-joined p parts h) refl

read_back :
    (p : Text) (parts : List Text) (a : TelegramAction)
    → IsSplit (join p parts)
    → AreParts (p ∷ parts)
    → byte_len (join p parts) ≤ max_payload
    → decode_parts (p ∷ parts) ≡ ok a
    → decode (join p parts) ≡ ok a
read_back p parts a s h l e = decode-join p parts s h l ∙ e

one-print : (n : ℕ) → one (print n ∷ []) ≡ ok (print n)
unfolding one
one-print n = rw (text_eq-print n) refl

parse_page-print : (n : ℕ) → IsPage n → parse_page (print n) ≡ ok n
unfolding parse_page
parse_page-print n h = let z = h.0 in rw (parse-print u64_mod n h.1) (ground arith)

decode_token-valid : (t : Text) → valid_token t ≡ true → decode_token (t ∷ []) ≡ ok t
unfolding decode_token one valid_token
decode_token-valid t h = ground arith

one-payload : (s : Text) → IsPayload s → one (s ∷ []) ≡ ok s
unfolding one
one-payload s h = rw h.0 refl

-- The texts that begin with a prefix of the protocol.
settings-IsSplit : (parts : List Text) → IsSplit (join (codes "settings") parts)
unfolding text_eq
settings-IsSplit [] = (refl, refl, refl, refl)
settings-IsSplit (q ∷ parts) = (refl, refl, refl, refl)

report-IsSplit : (parts : List Text) → IsSplit (join (codes "report") parts)
unfolding text_eq
report-IsSplit [] = (refl, refl, refl, refl)
report-IsSplit (q ∷ parts) = (refl, refl, refl, refl)

discovery-IsSplit : (parts : List Text) → IsSplit (join (codes "random") parts)
unfolding text_eq
discovery-IsSplit [] = (refl, refl, refl, refl)
discovery-IsSplit (q ∷ parts) = (refl, refl, refl, refl)

dashboard_word-is_part : (a : DashboardAction) → is_part (dashboard_word a) ≡ true
dashboard_word-is_part previous = refl
dashboard_word-is_part next = refl
dashboard_word-is_part refresh = refl

decode_dashboard-word :
    (a : DashboardAction) (n : ℕ)
    → IsPage n
    → decode_dashboard (dashboard_word a ∷ print n ∷ []) ≡ ok (dashboard a n)
unfolding decode_dashboard
decode_dashboard-word previous n h = rw (parse_page-print n h) refl
decode_dashboard-word next n h = rw (parse_page-print n h) refl
decode_dashboard-word refresh n h = rw (parse_page-print n h) refl

-- Every action whose fields are in the grammar, and whose payload is not over the limit, is read
-- back from its payload.
pub decode-encode :
    (a : TelegramAction)
    → IsEncodable a
    → byte_len (encode a) ≤ max_payload
    → decode (encode a) ≡ ok a
unfolding encode text_eq
decode-encode (dashboard action page) h l =
    read_back (codes "dashboard") (dashboard_word action ∷ print page ∷ []) (dashboard action page)
      (refl, refl, refl, refl) (refl, (dashboard_word-is_part action, (print-is_part page, tt))) l
      (unfold decode_parts in rw (decode_dashboard-word action page h) refl)
decode-encode (cancel job_id) h l =
    read_back (codes "cancel") (job_id ∷ []) (cancel job_id) (refl, refl, refl, refl)
      (refl, (h.1, tt)) l (unfold decode_parts in rw (one-payload job_id h) refl)
decode-encode (settings action) h l =
    let e = encode_settings-join action in
    rw e (
      read_back (codes "settings") (settings_parts action) (settings action)
        (settings-IsSplit (settings_parts action)) (refl, settings-AreParts action h) (rw (sym e) l)
        (unfold decode_parts in rw (decode_settings-parts action h) refl))
decode-encode (report action) h l =
    let e = encode_report-join action in
    rw e (
      read_back (codes "report") (report_parts action) (report action)
        (report-IsSplit (report_parts action)) (refl, report-AreParts action h) (rw (sym e) l)
        (unfold decode_parts in rw (decode_report-parts action h) refl))
decode-encode (discovery action) h l =
    let e = encode_discovery-join action in
    rw e (
      read_back (codes "random") (discovery_parts action) (discovery action)
        (discovery-IsSplit (discovery_parts action)) (refl, discovery-AreParts action h)
        (rw (sym e) l) (unfold decode_parts in rw (decode_discovery-parts action h) refl))
decode-encode (deliver_cached track_id) h l =
    read_back (codes "cached") (track_id ∷ []) (deliver_cached track_id) (refl, refl, refl, refl)
      (refl, (h.1, tt)) l (unfold decode_parts in rw (one-payload track_id h) refl)
decode-encode (get track_id) h l =
    read_back (codes "get") (track_id ∷ []) (get track_id) (refl, refl, refl, refl)
      (refl, (h.1, tt)) l (unfold decode_parts in rw (one-payload track_id h) refl)
decode-encode search_close h l = unfold decode byte_len in refl
decode-encode (auth_page page) h l =
    read_back (codes "authpage") (print page ∷ []) (auth_page page) (refl, refl, refl, refl)
      (refl, (print-is_part page, tt)) l
      (unfold decode_parts in rw (one-print page, parse_page-print page h) refl)
decode-encode auth_close h l = unfold decode byte_len in refl
decode-encode (confirm_delete token) h l =
    read_back (codes "delete_confirm") (token ∷ []) (confirm_delete token) (refl, refl, refl, refl)
      (refl, (valid_token-is_part token h, tt)) l
      (unfold decode_parts in rw (decode_token-valid token h) refl)
decode-encode (cancel_delete token) h l =
    read_back (codes "delete_cancel") (token ∷ []) (cancel_delete token) (refl, refl, refl, refl)
      (refl, (valid_token-is_part token h, tt)) l
      (unfold decode_parts in rw (decode_token-valid token h) refl)
decode-encode (confirm_import token) h l =
    read_back (codes "import_confirm") (token ∷ []) (confirm_import token) (refl, refl, refl, refl)
      (refl, (valid_token-is_part token h, tt)) l
      (unfold decode_parts in rw (decode_token-valid token h) refl)
decode-encode (cancel_import token) h l =
    read_back (codes "import_cancel") (token ∷ []) (cancel_import token) (refl, refl, refl, refl)
      (refl, (valid_token-is_part token h, tt)) l
      (unfold decode_parts in rw (decode_token-valid token h) refl)
decode-encode noop h l = unfold decode byte_len in refl
