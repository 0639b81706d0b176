-- ===== src/Interaction/Report/Reading.antt =====
-- crates/bot/src/interaction.rs: what encoding writes for reports is read back.
use alac_bot.Prelude.{◌≡◌, refl, true, List, [], ◌∷◌}
use alac_bot.Prelude.Text.{Text, codes}
use alac_bot.Interaction.Grammar.{ok, valid_id}
use alac_bot.Interaction.Parts.{AreParts, join, is_part, valid_id-is_part}
use alac_bot.Interaction.Report.{
  ReportAction, ReportReason, decode_report, encode_report, reason_word, parse_reason,
}
use ReportAction.{cancel, submit, dismiss, delete, rerip}
use ReportReason.{corrupted, incomplete, metadata, other}

abbrev pub IsReport : ReportAction → Type 0
IsReport cancel = Unit
IsReport (submit track_id reason) = valid_id track_id ≡ true
IsReport (dismiss report_id) = valid_id report_id ≡ true
IsReport (delete track_id report_id) = (valid_id track_id ≡ true) × (valid_id report_id ≡ true)
IsReport (rerip track_id report_id) = (valid_id track_id ≡ true) × (valid_id report_id ≡ true)

abbrev pub report_parts : ReportAction → List Text
report_parts cancel = codes "cancel" ∷ []
report_parts (submit track_id reason) = codes "sub" ∷ track_id ∷ reason_word reason ∷ []
report_parts (dismiss report_id) = codes "act" ∷ codes "dismiss" ∷ report_id ∷ []
report_parts (delete track_id report_id) = codes "act" ∷ codes "del" ∷ track_id ∷ report_id ∷ []
report_parts (rerip track_id report_id) = codes "act" ∷ codes "rerip" ∷ track_id ∷ report_id ∷ []

pub encode_report-join :
    (a : ReportAction) → encode_report a ≡ join (codes "report") (report_parts a)
unfolding encode_report
encode_report-join cancel = refl
encode_report-join (submit track_id reason) = refl
encode_report-join (dismiss report_id) = refl
encode_report-join (delete track_id report_id) = refl
encode_report-join (rerip track_id report_id) = refl

reason_word-is_part : (r : ReportReason) → is_part (reason_word r) ≡ true
reason_word-is_part corrupted = refl
reason_word-is_part incomplete = refl
reason_word-is_part metadata = refl
reason_word-is_part other = refl

pub report-AreParts : (a : ReportAction) → IsReport a → AreParts (report_parts a)
report-AreParts cancel h = (refl, tt)
report-AreParts (submit track_id reason) h =
    (refl, (valid_id-is_part track_id h, (reason_word-is_part reason, tt)))
report-AreParts (dismiss report_id) h = (refl, (refl, (valid_id-is_part report_id h, tt)))
report-AreParts (delete track_id report_id) h =
    (refl, (refl, (valid_id-is_part track_id h.0, (valid_id-is_part report_id h.1, tt))))
report-AreParts (rerip track_id report_id) h =
    (refl, (refl, (valid_id-is_part track_id h.0, (valid_id-is_part report_id h.1, tt))))

parse_reason-reason_word : (r : ReportReason) → parse_reason (reason_word r) ≡ ok r
unfolding parse_reason
parse_reason-reason_word corrupted = refl
parse_reason-reason_word incomplete = refl
parse_reason-reason_word metadata = refl
parse_reason-reason_word other = refl

pub decode_report-parts : (a : ReportAction) → IsReport a → decode_report (report_parts a) ≡ ok a
unfolding decode_report
decode_report-parts cancel h = refl
decode_report-parts (submit track_id reason) h = rw (h, parse_reason-reason_word reason) refl
decode_report-parts (dismiss report_id) h = rw h refl
decode_report-parts (delete track_id report_id) h = rw (h.0, h.1) refl
decode_report-parts (rerip track_id report_id) h = rw (h.0, h.1) refl
