-- ===== src/Proxy/Director/StorageClass.antt =====
-- The header of the storage class, which the director translates.
use s3proxy4gcs.Base.{
  ◌≡◌, refl, sym, ap, ◌∙◌, false, Option, none, some, [], ◌∷◌, Text, Dict, codes, text_eq,
  text_eq_iff, is_nil, lookup, lookup-insert, arith, Bool-cases, Option-cases, inl, inr,
}
use mathlib.Core.Option.{some-ne-none}
use s3proxy4gcs.Http.{get_header}
use s3proxy4gcs.Proxy.StorageClass.{translate_s3_storage_class}
use s3proxy4gcs.Proxy.Director.{storage_class, translate_storage_class}

pub lookup-translate_storage_class :
    (k : Text) (h : Dict Text)
    → text_eq storage_class k ≡ false
    → lookup k (translate_storage_class h) ≡ lookup k h
unfolding translate_storage_class
lookup-translate_storage_class k h other =
    elim (Option-cases (translate_s3_storage_class (get_header h storage_class))) [
      | inl e ↦ ground (arith, e)
      | inr (c, e) ↦ ground (arith, e, lookup-insert storage_class k c h, other)
    ]

translated_standard : translate_s3_storage_class (codes "STANDARD") ≡ some (codes "STANDARD")
unfolding translate_s3_storage_class text_eq
translated_standard = refl

get_header-lookup :
    (h : Dict Text) (k : Text) (o : Option Text)
    → lookup k h ≡ o
    → get_header h k ≡ elim o as (λ _. Text) [ none ↦ [] | some v ↦ v ]
unfolding get_header
get_header-lookup h k o e = ap (λ p. elim p as (λ _. Text) [ none ↦ [] | some v ↦ v ]) e

storage_class-standard :
    (h : Dict Text)
    → get_header h storage_class ≡ codes "STANDARD"
    → lookup storage_class (translate_storage_class h) ≡ lookup storage_class h
unfolding translate_storage_class
storage_class-standard h standard =
    ground (arith, standard, text_eq_iff (get_header h storage_class) (codes "STANDARD"))

storage_class-known :
    (h : Dict Text) (sc gcs_class : Text)
    → get_header h storage_class ≡ sc
    → is_nil sc ≡ false
    → text_eq sc (codes "STANDARD") ≡ false
    → translate_s3_storage_class sc ≡ some gcs_class
    → lookup storage_class (translate_storage_class h) ≡ some gcs_class
unfolding translate_storage_class
storage_class-known h sc gcs_class e filled other known =
    rw (e, filled, other, known)
      (ground (
        arith,
        lookup-insert storage_class storage_class gcs_class h,
        text_eq_iff storage_class storage_class,
      ))

-- A class that the storage service knows is sent under the name that it has there.
pub storage_class-translated :
    (h : Dict Text) (sc gcs_class : Text)
    → lookup storage_class h ≡ some sc
    → translate_s3_storage_class sc ≡ some gcs_class
    → lookup storage_class (translate_storage_class h) ≡ some gcs_class
storage_class-translated h [] gcs_class e known =
    absurd (some-ne-none gcs_class (sym known ∙ unfold translate_s3_storage_class text_eq in refl))
storage_class-translated h (c ∷ sc) gcs_class e known =
    let read = get_header-lookup h storage_class (some (c ∷ sc)) e in
    elim (Bool-cases (text_eq (c ∷ sc) (codes "STANDARD"))) [
      | inl standard ↦
          let same = (text_eq_iff (c ∷ sc) (codes "STANDARD")).0 standard in
          storage_class-standard h (read ∙ same)
          ∙ (e
              ∙ (ap some same
                  ∙ (sym translated_standard ∙ (ap translate_s3_storage_class (sym same) ∙ known))))
      | inr other ↦ storage_class-known h (c ∷ sc) gcs_class read refl other known
    ]

storage_class-untranslated :
    (h : Dict Text)
    → translate_s3_storage_class (get_header h storage_class) ≡ none
    → lookup storage_class (translate_storage_class h) ≡ lookup storage_class h
unfolding translate_storage_class
storage_class-untranslated h unknown = ground (arith, unknown)

pub storage_class-unknown :
    (h : Dict Text)
    → ((sc : Text) → lookup storage_class h ≡ some sc → translate_s3_storage_class sc ≡ none)
    → lookup storage_class (translate_storage_class h) ≡ lookup storage_class h
storage_class-unknown h unknown = elim (Option-cases (lookup storage_class h)) [
  | inl e ↦ storage_class-untranslated h (
      ap translate_s3_storage_class (get_header-lookup h storage_class none e)
      ∙ unfold translate_s3_storage_class text_eq in refl)
  | inr (sc, e) ↦
      storage_class-untranslated h (
        ap translate_s3_storage_class (get_header-lookup h storage_class (some sc) e)
        ∙ unknown sc e)
]
