-- ===== src/Main/Durations/Parts.antt =====
-- The durations that slideshowImagesUtils.ts prints, against how they are spelled out.
use shareframe_board.Common.{
  ℕ, zero, suc, ◌≡◌, refl, ap, ◌+◌, ◌*◌, ◌%◌, ◌<◌, List, [], ◌∷◌, ◌++◌, String, arith,
}
use shareframe_board.Common.Text.{◌<>◌, show}
use shareframe_board.Main.Durations.{
  total_minutes, days_of, hours_of, part_of, duration_parts, plural, join_words, text_of_parts,
  format_duration,
}

-- A number of things in words: none is not said, and one is said in the singular.
abbrev pub spelled : ℕ → String → String → List String
spelled zero singular plural_form = []
spelled (suc zero) singular plural_form = (show 1 <> " " <> singular) ∷ []
spelled (suc (suc n)) singular plural_form = (show (suc (suc n)) <> " " <> plural_form) ∷ []

part_of-spelled : (n : ℕ) (s p : String) → part_of n s p ≡ spelled n s p
unfolding plural
part_of-spelled zero s p = refl
part_of-spelled (suc zero) s p = refl
part_of-spelled (suc (suc n)) s p = ground arith

abbrev pub spelled_duration : ℕ → ℕ → ℕ → List String
spelled_duration days hours minutes =
    spelled days "Tag" "Tage"
    ++ spelled hours "Stunde" "Stunden"
    ++ spelled minutes "Minute" "Minuten"

-- The words with a space between each two.
abbrev pub said_after : String → List String → String
said_after word [] = word
said_after word (next ∷ words) = word <> " " <> said_after next words

abbrev pub said : List String → String
said [] = "weniger als 1 Minute"
said (word ∷ words) = said_after word words

join_words-said_after :
    (word : String) (words : List String) → join_words (word ∷ words) ≡ said_after word words
unfolding join_words
join_words-said_after word [] = refl
join_words-said_after word (next ∷ words) =
    ap (λ s. word <> " " <> s) (join_words-said_after next words)

text_of_parts-said : (parts : List String) → text_of_parts parts ≡ said parts
unfolding text_of_parts
text_of_parts-said [] = refl
text_of_parts-said (word ∷ words) = join_words-said_after word words

-- A duration of some days, hours below a day and minutes below an hour, to the nearest minute, prints
-- these three in this order with a space between each two, those that are zero left out, and as less
-- than a minute if all are.
pub format_duration-spelled :
    (duration_ms days hours minutes rest : ℕ)
    → hours < 24
    → minutes < 60
    → rest < 60000
    → duration_ms + 30000 ≡ ((days * 24 + hours) * 60 + minutes) * 60000 + rest
    → format_duration duration_ms ≡ said (spelled_duration days hours minutes)
unfolding format_duration duration_parts
format_duration-spelled ms d h m rest lh lm lr e =
    let whole : total_minutes ms ≡ (d * 24 + h) * 60 + m = omega arith in
    let days : days_of (total_minutes ms) ≡ d = omega arith in
    let hours : hours_of (total_minutes ms) ≡ h = omega arith in
    let minutes : total_minutes ms % 60 ≡ m = omega arith in
    rw
      (
        days,
        hours,
        minutes,
        part_of-spelled d "Tag" "Tage",
        part_of-spelled h "Stunde" "Stunden",
        part_of-spelled m "Minute" "Minuten",
      )
      (text_of_parts-said (spelled_duration d h m))
