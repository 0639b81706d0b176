-- ===== src/Interaction/Grammar.antt =====
-- crates/bot/src/interaction.rs: what the grammars of all features share, the errors, the tests of
-- the fields and the words.
use alac_bot.Prelude.{
  ℕ, ◌+◌, Bool, false, ◌&&◌, ◌||◌, not, Option, none, some, List, [], ◌∷◌, all, ltb, leb, ◌==◌,
  if◌then◌else◌,
}
use alac_bot.Prelude.Text.{Text, codes, text_eq, byte_len}
use alac_bot.Prelude.Decimal.{parse, is_digit}
use alac_bot.Prelude.Words.{u64_mod}

pub data DecodeError : Type 0 where
  empty unknown malformed oversized : DecodeError

pub data Decode {ℓ} (A : Type ℓ) : Type ℓ where
  ok : A → Decode A
  err : DecodeError → Decode A

infixl 5 ◌>>=◌
abbrev pub ◌>>=◌ {ℓ κ} : {A : Type ℓ} {B : Type κ} → Decode A → (A → Decode B) → Decode B
ok a >>= f = f a
err e >>= f = err e

-- `ok_or`
abbrev pub ok_or {ℓ} : {A : Type ℓ} → Option A → DecodeError → Decode A
ok_or none e = err e
ok_or (some a) e = ok a

-- A `match` of a text against literals, in order.
abbrev pub match_word {ℓ} : {A : Type ℓ} → Text → List (Text × A) → Option A
match_word s [] = none
match_word s (w ∷ words) = if text_eq s w.0 then some w.1 else match_word s words

unfoldable pub is_ascii_alphabetic : ℕ → Bool
is_ascii_alphabetic c = (leb b'a' c && leb c b'z') || (leb b'A' c && leb c b'Z')

unfoldable pub to_ascii_lowercase : Text → Text
to_ascii_lowercase [] = []
to_ascii_lowercase (c ∷ s) = (if leb b'A' c && leb c b'Z' then c + 32 else c) ∷ to_ascii_lowercase s

unfoldable pub is_id_char : ℕ → Bool
unfolding is_digit is_ascii_alphabetic
is_id_char c = is_digit c || is_ascii_alphabetic c || c == b'-' || c == b'_'

unfoldable pub valid_id : Text → Bool
unfolding is_id_char byte_len text_eq
valid_id value = not (text_eq value []) && leb (byte_len value) 96 && all is_id_char value

unfoldable pub valid_token : Text → Bool
unfolding is_id_char byte_len text_eq
valid_token value = not (text_eq value []) && leb (byte_len value) 64 && all is_id_char value

unfoldable pub valid_storefront : Text → Bool
unfolding is_ascii_alphabetic byte_len
valid_storefront value = byte_len value == 2 && all is_ascii_alphabetic value

abbrev pub sources : List Text
sources =
    codes "charts"
    ∷ codes "wild"
    ∷ codes "rock"
    ∷ codes "hiphop"
    ∷ codes "pop"
    ∷ codes "electronic"
    ∷ codes "jazz"
    ∷ codes "indie"
    ∷ codes "rap"
    ∷ codes "edm"
    ∷ codes "southasia"
    ∷ codes "subcontinent"
    ∷ codes "desi"
    ∷ codes "india"
    ∷ codes "pakistan"
    ∷ codes "bangladesh"
    ∷ codes "nepal"
    ∷ codes "bhutan"
    ∷ []

abbrev pub member : Text → List Text → Bool
member s [] = false
member s (t ∷ ts) = text_eq s t || member s ts

unfoldable pub valid_source : Text → Bool
unfolding text_eq
valid_source value = member value sources

unfoldable pub one : List Text → Decode Text
unfolding text_eq
one (part ∷ []) = if text_eq part [] then err malformed else ok part
one _ = err malformed

unfoldable pub parse_page : Text → Decode ℕ
unfolding parse
parse_page value = do
  page ← ok_or (parse u64_mod value) malformed
  if ltb 0 page then ok page else err malformed
