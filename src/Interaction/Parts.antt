-- ===== src/Interaction/Parts.antt =====
-- crates/bot/src/interaction.rs: payloads as parts joined by colons.
use alac_bot.Prelude.{
  ℕ, ◌≡◌, refl, ap, ◌∙◌, Bool, true, false, not, List, [], ◌∷◌, ◌++◌, arith, All, all, ◌==◌,
  Bool-cases, inl, inr,
}
use alac_bot.Prelude.Text.{Text, text_eq, text_eq-eq}
use alac_bot.Prelude.Decimal.{print, is_digit, All-print}
use alac_bot.Prelude.Split.{IsPart, split_on-part, split_on-join}
use alac_bot.Prelude.Text.{split_on}
use alac_bot.Interaction.Grammar.{
  is_id_char, is_ascii_alphabetic, to_ascii_lowercase, valid_id, valid_token, valid_storefront,
  valid_source, member, sources,
}

abbrev pub is_part : Text → Bool
is_part s = all (λ c. not (c == b':')) s

is_part-IsPart : (s : Text) → is_part s ≡ true → IsPart b':' s
is_part-IsPart [] h = tt
is_part-IsPart (c ∷ s) h = (ground arith, is_part-IsPart s (ground arith))

abbrev pub AreParts : List Text → Type 0
AreParts parts = All (λ s. is_part s ≡ true) parts

abbrev pub join : Text → List Text → Text
join p [] = p
join p (q ∷ parts) = p ++ b':' ∷ join q parts

pub split_on-joined :
    (p : Text) (parts : List Text) → AreParts (p ∷ parts) → split_on b':' (join p parts) ≡ p ∷ parts
split_on-joined p [] h = split_on-part b':' p (is_part-IsPart p h.0)
split_on-joined p (q ∷ parts) h =
    split_on-join b':' p (join q parts) (is_part-IsPart p h.0)
    ∙ ap (λ l. p ∷ l) (split_on-joined q parts h.1)

all-is_part :
    (f : ℕ → Bool) (s : Text)
    → ((c : ℕ) → f c ≡ true → (c == b':') ≡ false)
    → all f s ≡ true
    → is_part s ≡ true
all-is_part f [] g h = refl
all-is_part f (c ∷ s) g h = ground (arith, g c, all-is_part f s g)

id_char-colon : (c : ℕ) → is_id_char c ≡ true → (c == b':') ≡ false
unfolding is_id_char is_digit is_ascii_alphabetic
id_char-colon c h = ground arith

alphabetic-colon : (c : ℕ) → is_ascii_alphabetic c ≡ true → (c == b':') ≡ false
unfolding is_ascii_alphabetic
alphabetic-colon c h = ground arith

digit-colon : (c : ℕ) → is_digit c ≡ true → (c == b':') ≡ false
unfolding is_digit
digit-colon c h = ground arith

pub valid_id-is_part : (s : Text) → valid_id s ≡ true → is_part s ≡ true
unfolding valid_id
valid_id-is_part s h = all-is_part is_id_char s id_char-colon (ground arith)

pub valid_token-is_part : (s : Text) → valid_token s ≡ true → is_part s ≡ true
unfolding valid_token
valid_token-is_part s h = all-is_part is_id_char s id_char-colon (ground arith)

pub valid_storefront-is_part : (s : Text) → valid_storefront s ≡ true → is_part s ≡ true
unfolding valid_storefront
valid_storefront-is_part s h = all-is_part is_ascii_alphabetic s alphabetic-colon (ground arith)

All-all : (s : Text) → All (λ c. is_digit c ≡ true) s → all is_digit s ≡ true
All-all [] h = refl
All-all (c ∷ s) h = rw h.0 (All-all s h.1)

pub print-is_part : (n : ℕ) → is_part (print n) ≡ true
print-is_part n = all-is_part is_digit (print n) digit-colon (All-all (print n) (All-print n))

member-is_part :
    (s : Text) (ts : List Text) → all is_part ts ≡ true → member s ts ≡ true → is_part s ≡ true
member-is_part s [] h m = ground arith
member-is_part s (t ∷ ts) h m = elim (Bool-cases (text_eq s t)) [
  | inl e ↦ (let k : is_part t ≡ true = ground arith in rw (text_eq-eq s t e) k)
  | inr e ↦ member-is_part s ts (ground arith) (ground arith)
]

pub valid_source-is_part : (s : Text) → valid_source s ≡ true → is_part s ≡ true
unfolding valid_source
valid_source-is_part s h = member-is_part s sources refl h

-- A storefront as decoding leaves it.
abbrev pub IsStorefront : Text → Type 0
IsStorefront s = (valid_storefront s ≡ true) × (to_ascii_lowercase s ≡ s)
