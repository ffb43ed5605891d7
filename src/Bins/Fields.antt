-- ===== src/Bins/Fields.antt =====
-- Reading the fields of a line back.
use de_part.Prelude.{
  ℕ, ◌≡◌, refl, sym, ap, ◌∙◌, ◌≢◌, false, List, [], ◌∷◌, ◌++◌, arith, ◌==◌, ==_iff, if◌then◌else◌,
  Bytes, All,
}
use mathlib.Core.List.{append_assoc, append-nil}
use de_part.Bins.{comma, split_from, split_csv_line}

-- The fields of a line with a comma after each but the last.
pub join : List Bytes → Bytes
join [] = []
join (f ∷ []) = f
join (f ∷ g ∷ fields) = f ++ comma ∷ join (g ∷ fields)

abbrev NoComma : Bytes → Type 0
NoComma = All (λ c. c ≢ comma)

-- The last field is not empty.
abbrev EndsFull : List Bytes → Type 0
EndsFull [] = Unit
EndsFull (f ∷ []) = f ≢ []
EndsFull (f ∷ g ∷ fields) = EndsFull (g ∷ fields)

split_from-cons :
    (token : Bytes) (c : ℕ) (line : Bytes)
    → split_from comma token (c ∷ line) ≡ (
        if c == comma
        then token ∷ split_from comma [] line
        else split_from comma (token ++ c ∷ []) line)
unfolding split_from
split_from-cons [] c line = refl
split_from-cons (b ∷ token) c line = refl

split_from-field :
    (token field rest : Bytes)
    → NoComma field
    → split_from comma token (field ++ rest) ≡ split_from comma (token ++ field) rest
split_from-field token [] rest h = ap (λ t. split_from comma t rest) (sym (append-nil token))
split_from-field token (c ∷ field) rest h =
    let other : (c == comma) ≡ false = not_comma c h.0 in
    split_from-cons token c (field ++ rest)
    ∙ rw other (
        split_from-field (token ++ c ∷ []) field rest h.1
        ∙ ap (λ t. split_from comma t rest) (append_assoc token (c ∷ []) field))
  where
    not_comma : (c' : ℕ) → c' ≢ comma → (c' == comma) ≡ false
    not_comma c' n = ground (arith, ==_iff c' comma)

split_from-end : (field : Bytes) → field ≢ [] → split_from comma field [] ≡ field ∷ []
unfolding split_from
split_from-end [] h = absurd (h refl)
split_from-end (c ∷ field) h = refl

-- Fields that hold no comma, the last of which is not empty, are what splitCSVLine reads from the
-- line that joins them by commas; other fields may be empty.
pub split_csv_line-join :
    (fields : List Bytes)
    → All NoComma fields
    → EndsFull fields
    → split_csv_line (join fields) ≡ fields
unfolding split_csv_line join
split_csv_line-join [] h full = refl
split_csv_line-join (f ∷ []) h full =
    ap (split_from comma []) (sym (append-nil f))
    ∙ split_from-field [] f [] h.0
    ∙ split_from-end f full
split_csv_line-join (f ∷ g ∷ fields) h full =
    split_from-field [] f (comma ∷ join (g ∷ fields)) h.0
    ∙ split_from-cons f comma (join (g ∷ fields))
    ∙ ap (λ l. f ∷ l) (split_csv_line-join (g ∷ fields) h.1 full)
