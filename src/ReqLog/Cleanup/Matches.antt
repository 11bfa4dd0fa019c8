-- ===== src/ReqLog/Cleanup/Matches.antt =====
-- The names of log files: what a name that matches is made of.
use s3proxy4gcs.Base.{
  ◌≡◌, ◌≢◌, ◌⊎◌, inl, inr, refl, sym, ap, ◌∙◌, Bool-cases, Option-cases, true, some, [], ◌∷◌, ◌++◌,
  Text, codes, is_digit, length, all, arith, cut_prefix, cut_prefix-eq-some,
}
use s3proxy4gcs.ReqLog.Cleanup.{is_rotation, eight_digits, match_log_file}

-- What may stand behind `.csv` in the name of a log: nothing, or a dot and digits.
abbrev pub IsRotation : Text → Type 0
IsRotation rest =
    (rest ≡ [])
    ⊎ ((number : Text) × (number ≢ []) × (all is_digit number ≡ true) × (rest ≡ b'.' ∷ number))

is_rotation_sound : (rest : Text) → is_rotation rest ≡ true → IsRotation rest
is_rotation_sound [] e = inl refl
is_rotation_sound (c ∷ []) e = absurd (ground (arith, e))
is_rotation_sound (c ∷ d ∷ number) e =
    inr (d ∷ number, ground arith, ground (arith, e), ground (arith, e))

eight_digits_sound :
    (s digits rest : Text)
    → eight_digits s ≡ some (digits, rest)
    → (length digits ≡ 8) × (all is_digit digits ≡ true) × (s ≡ digits ++ rest)
eight_digits_sound (y ∷ e ∷ a ∷ r ∷ m ∷ n ∷ d ∷ f ∷ s) digits rest h =
    elim (Bool-cases (all is_digit (y ∷ e ∷ a ∷ r ∷ m ∷ n ∷ d ∷ f ∷ []))) [
      | inl good ↦ ground (arith, h, good)
      | inr bad ↦ absurd (ground (arith, h, bad))
    ]
eight_digits_sound [] digits rest h = absurd (ground (arith, h))
eight_digits_sound (y ∷ []) digits rest h = absurd (ground (arith, h))
eight_digits_sound (y ∷ e ∷ []) digits rest h = absurd (ground (arith, h))
eight_digits_sound (y ∷ e ∷ a ∷ []) digits rest h = absurd (ground (arith, h))
eight_digits_sound (y ∷ e ∷ a ∷ r ∷ []) digits rest h = absurd (ground (arith, h))
eight_digits_sound (y ∷ e ∷ a ∷ r ∷ m ∷ []) digits rest h = absurd (ground (arith, h))
eight_digits_sound (y ∷ e ∷ a ∷ r ∷ m ∷ n ∷ []) digits rest h = absurd (ground (arith, h))
eight_digits_sound (y ∷ e ∷ a ∷ r ∷ m ∷ n ∷ d ∷ []) digits rest h = absurd (ground (arith, h))

-- A name that matches is that of a log.
pub match_log_file_sound :
    (name date : Text)
    → match_log_file name ≡ some date
    → (rest : Text) × (length date ≡ 8)
      × (all is_digit date ≡ true)
      × IsRotation rest
      × (name ≡ codes "req_" ++ (date ++ (codes ".csv" ++ rest)))
unfolding match_log_file
match_log_file_sound name date h = elim (Option-cases (cut_prefix (codes "req_") name)) [
  | inl e ↦ absurd (ground (arith, e, h))
  | inr (behind, e) ↦ elim (Option-cases (eight_digits behind)) [
    | inl e' ↦ absurd (ground (arith, e, e', h))
    | inr ((digits, left), e') ↦ elim (Option-cases (cut_prefix (codes ".csv") left)) [
      | inl e'' ↦ absurd (ground (arith, e, e', e'', h))
      | inr (rest, e'') ↦ elim (Bool-cases (is_rotation rest)) [
        | inl good ↦
            let same : digits ≡ date = ground (arith, e, e', e'', good, h) in
            let (eight, all_digits, found) = eight_digits_sound behind digits left e' in
            let name_is = cut_prefix-eq-some (codes "req_") name behind e in
            let left_is = cut_prefix-eq-some (codes ".csv") left rest e'' in
            (
              rest,
              ap length (sym same) ∙ eight,
              ap (all is_digit) (sym same) ∙ all_digits,
              is_rotation_sound rest good,
              rw (name_is, found, left_is, same) refl,
            )
        | inr bad ↦ absurd (ground (arith, e, e', e'', bad, h))
      ]
    ]
  ]
]
