-- ===== src/Interaction/Report.antt =====
-- crates/bot/src/interaction.rs: the part of the callback protocol on reports.
pub mod Reading
use alac_bot.Prelude.{◌&&◌, List, [], ◌∷◌, ◌++◌, if◌then◌else◌}
use alac_bot.Prelude.Text.{Text, codes, text_eq}
use alac_bot.Interaction.Grammar.{Decode, ok, err, DecodeError, ok_or, match_word, valid_id, ◌>>=◌}
use DecodeError.{unknown}

pub data ReportReason : Type 0 where
  corrupted incomplete metadata other : ReportReason

pub data ReportAction : Type 0 where
  cancel : ReportAction
  submit : Text → ReportReason → ReportAction
  dismiss : Text → ReportAction
  delete rerip : Text → Text → ReportAction

abbrev pub reason_words : List (Text × ReportReason)
reason_words =
    (codes "corrupted", corrupted)
    ∷ (codes "incomplete", incomplete)
    ∷ (codes "metadata", metadata)
    ∷ (codes "other", other)
    ∷ []

unfoldable pub parse_reason : Text → Decode ReportReason
unfolding text_eq
parse_reason value = ok_or (match_word value reason_words) unknown

unfoldable pub decode_report : List Text → Decode ReportAction
unfolding text_eq valid_id parse_reason
decode_report (word ∷ []) = if text_eq word (codes "cancel") then ok cancel else err unknown
decode_report (word ∷ a ∷ b ∷ []) =
    if text_eq word (codes "sub") && valid_id a
    then (do reason ← parse_reason b; ok (submit a reason))
    else if text_eq word (codes "act") && text_eq a (codes "dismiss") && valid_id b
    then ok (dismiss b)
    else err unknown
decode_report (word ∷ verb ∷ track_id ∷ report_id ∷ []) =
    if text_eq word (codes "act")
      && text_eq verb (codes "del")
      && (valid_id track_id && valid_id report_id)
    then ok (delete track_id report_id)
    else if text_eq word (codes "act")
        && text_eq verb (codes "rerip")
        && (valid_id track_id && valid_id report_id)
    then ok (rerip track_id report_id)
    else err unknown
decode_report _ = err unknown

abbrev pub reason_word : ReportReason → Text
reason_word corrupted = codes "corrupted"
reason_word incomplete = codes "incomplete"
reason_word metadata = codes "metadata"
reason_word other = codes "other"

unfoldable pub encode_report : ReportAction → Text
encode_report cancel = codes "report:cancel"
encode_report (submit track_id reason) =
    codes "report:sub:" ++ (track_id ++ b':' ∷ reason_word reason)
encode_report (dismiss report_id) = codes "report:act:dismiss:" ++ report_id
encode_report (delete track_id report_id) =
    codes "report:act:del:" ++ (track_id ++ b':' ∷ report_id)
encode_report (rerip track_id report_id) =
    codes "report:act:rerip:" ++ (track_id ++ b':' ∷ report_id)
