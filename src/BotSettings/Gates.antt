-- ===== src/BotSettings/Gates.antt =====
-- crates/engine/src/settings.rs: how the gates and the modes relate.
use alac_bot.Prelude.{◌≡◌, ◌≢◌, ◌↔◌, refl, ap, Bool, true, some, List, [], ◌∷◌, arith, All}
use alac_bot.Prelude.Text.{Text, codes, text_eq-eq}
use alac_bot.BotSettings.{
  RippingMode, as_str, parse, Settings, can_rip_live, can_rip_apple, can_rip_qobuz, can_serve_cache,
  can_rip_album, can_rip_playlist, can_rip_artist, can_rip_txt, can_rip_multi_link, cycled_mode,
  can_rip_provider,
}
use RippingMode.{live, cache_only, paused}

parse-as_str : (mode : RippingMode) → parse (as_str mode) ≡ some mode
unfolding parse as_str
parse-as_str live = refl
parse-as_str cache_only = refl
parse-as_str paused = refl

as_str-parse : (value : Text) (mode : RippingMode) → parse value ≡ some mode → value ≡ as_str mode
unfolding parse as_str
as_str-parse value mode h = ground (
  arith,
  text_eq-eq value (codes "live"),
  text_eq-eq value (codes "cache_only"),
  text_eq-eq value (codes "paused"),
)

-- A stored value is read as a mode exactly when it is what is written for that mode.
parse_iff : (value : Text) (mode : RippingMode) → (parse value ≡ some mode) ↔ (value ≡ as_str mode)
parse_iff value mode = (as_str-parse value mode, λ e. rw e (parse-as_str mode))

abbrev pub gates : List (Settings → Bool → Bool)
gates =
    can_rip_live ∷ can_rip_apple ∷ can_rip_qobuz ∷ can_serve_cache ∷ can_rip_album
    ∷ can_rip_playlist ∷ can_rip_artist ∷ can_rip_txt ∷ can_rip_multi_link ∷ []

-- The mode that follows is what a press of the button stores.
abbrev pub cycled : Settings → Settings
cycled s = record s { ripping_mode = cycled_mode s }

-- Who may rip live may also be served from the cache, and an admin passes every gate.
gates_lem :
    (s : Settings)
    → ((is_admin : Bool) → can_rip_live s is_admin ≡ true → can_serve_cache s is_admin ≡ true)
      × All (λ gate. gate s true ≡ true) gates
unfolding can_rip_live can_rip_apple can_rip_qobuz can_serve_cache can_rip_album can_rip_playlist
    can_rip_artist can_rip_txt can_rip_multi_link can_rip_provider
gates_lem s = (
  λ is_admin h. ground arith,
  (refl, (refl, (refl, (refl, (refl, (refl, (refl, (refl, (refl, tt))))))))),
)

abbrev with_mode : Settings → RippingMode → Settings
with_mode s mode = record s { ripping_mode = mode }

three_presses :
    (s : Settings) (mode : RippingMode)
    → cycled_mode (with_mode s (cycled_mode (with_mode s (cycled_mode (with_mode s mode))))) ≡ mode
unfolding cycled_mode
three_presses s live = refl
three_presses s cache_only = refl
three_presses s paused = refl

one_press : (s : Settings) (mode : RippingMode) → cycled_mode (with_mode s mode) ≢ mode
unfolding cycled_mode
one_press s live e = ground arith
one_press s cache_only e = ground arith
one_press s paused e = ground arith

-- A press of the mode button always changes the mode, and three presses give the settings back.
cycled-cycled : (s : Settings) → (cycled (cycled (cycled s)) ≡ s) × (cycled_mode s ≢ s.ripping_mode)
cycled-cycled s = (ap (with_mode s) (three_presses s s.ripping_mode), one_press s s.ripping_mode)
