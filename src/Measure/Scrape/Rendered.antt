-- ===== src/Measure/Scrape/Rendered.antt =====
-- What the collector reads back from a text in the format that Prometheus scrapes.
use s3proxy4gcs.Base.{
  ℕ, ◌≡◌, ◌≢◌, true, Option, none, List, [], ◌∷◌, ◌++◌, Text, codes, cut_prefix, Lacks, All,
}
use s3proxy4gcs.Measure.Scrape.{is_numeric, match_labelled}

-- A line of the text: a sample of the metric with its labels and its value, or another line.
pub data Line : Type 0 where
  sample : Text → Text → Line
  foreign : Text → Line

abbrev pub line_text : Text → Line → Text
line_text name (sample labels number) = (name ++ codes "{") ++ (labels ++ b'}' ∷ b' ' ∷ number)
line_text name (foreign text) = text

abbrev pub render : Text → List Line → Text
render name [] = []
render name (l ∷ ls) = line_text name l ++ b'\n' ∷ render name ls

-- The values of the samples.
abbrev pub numbers : List Line → List Text
numbers [] = []
numbers (sample labels number ∷ ls) = number ∷ numbers ls
numbers (foreign text ∷ ls) = numbers ls

-- The labels have no closing brace, and the value is one or more of the characters
-- of a number; another line has no line break and does not begin with the name and an opening brace.
abbrev pub IsLine : Text → Line → Type 0
IsLine name (sample labels number) =
    Lacks b'}' labels × (number ≢ []) × All (λ c. is_numeric c ≡ true) number
IsLine name (foreign text) = Lacks b'\n' text × (cut_prefix (name ++ codes "{") text ≡ none)

module _ (d : ℕ) (name : Text) (no_break : Lacks b'\n' ((d ∷ name) ++ codes "{")) where
  abbrev matcher : Text → Option (Text × Text)
  matcher = match_labelled (d ∷ name)

  -- The line of a sample behind its first character, and the same with what follows.
  abbrev tail_of : Text → Text → Text
  tail_of labels number = (name ++ codes "{") ++ (labels ++ b'}' ∷ b' ' ∷ number)
