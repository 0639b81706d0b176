-- ===== src/Tests/Callbacks.antt =====
-- crates/bot/src/interaction.rs on concrete payloads.
use alac_bot.Prelude.{◌≤◌, ◌≡◌, refl, arith}
use alac_bot.Prelude.Text.{codes, text_eq, byte_len, split_on}
use alac_bot.Prelude.Decimal.{parse}
use alac_bot.Interaction.Grammar.{ok, err, DecodeError, valid_id, parse_page}
use alac_bot.Interaction.{
  TelegramAction, decode, decode_parts, decode_dashboard, encode, max_payload,
}
use alac_bot.Interaction.Report.{ReportAction, encode_report}
use alac_bot.Interaction.RoundTrip.{decode-encode}

-- A report on track 12 is to be deleted.
abbrev delete_report : TelegramAction
delete_report = TelegramAction.report (ReportAction.delete (codes "12") (codes "r-7"))

short_report : byte_len (encode delete_report) ≤ max_payload
unfolding encode encode_report byte_len
short_report = omega arith

decode-encode_example : decode (encode delete_report) ≡ ok delete_report
decode-encode_example = decode-encode delete_report (unfold valid_id in (refl, refl)) short_report

decode-page_zero : decode (codes "dashboard:next:0") ≡ err DecodeError.malformed
unfolding decode decode_parts decode_dashboard parse_page parse split_on text_eq byte_len
decode-page_zero = refl
