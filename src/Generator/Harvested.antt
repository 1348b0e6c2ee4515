-- ===== src/Generator/Harvested.antt =====
-- What the corpus has that `extract` returns, and the samples that are built from it.
use gpu_lab.Base.{String, ◌≡◌, subst, inl, inr, true, false, ◌&&◌, ◌||◌, not}
use gpu_lab.Base.{Option, none, some, List, [], ◌∷◌, ◌++◌, arith, ◌==◌, nat_eq, string_eq}
use gpu_lab.Base.{keep, All, Bool-cases, Option-cases}
use gpu_lab.Base.Alls.{All-append}
use gpu_lab.Base.Text.{has_part, starts_with, rstrip}
use gpu_lab.Base.Pattern.{first}
use gpu_lab.Base.Format.{after_first}
use gpu_lab.Base.Parts.{IsPart, IsPart-trans, IsPart-of_has_part, has_part-of_IsPart}
use gpu_lab.Base.Trimmed.{IsSolid, after_first-IsPart, IsPart-rstrip}
use gpu_lab.Generator.Clippy.{Diagnostic}
use gpu_lab.Generator.Harvest.{
  Span, CompilerMessage, doc_url_of, elsewhere, diagnostic, kept_record, records_of, extract,
}

-- The short name of the lint stands in the text of the diagnostic.
abbrev pub IsVerified : Diagnostic → Type 0
IsVerified d =
    (short : String) × (after_first "::" d.lint ≡ some short) × (has_part short d.rendered ≡ true)

-- The short name of the message's lint is not empty and has no blank at its end.
abbrev pub HasSolidName : CompilerMessage → Type 0
HasSolidName m = (short : String) → after_first "::" m.code ≡ some short → IsSolid short

shown-IsVerified :
    (m : CompilerMessage) (short : String)
    → after_first "::" m.code ≡ some short
    → IsSolid short
    → (not (has_part short m.rendered) && not (has_part m.code m.rendered)) ≡ false
    → has_part short (rstrip m.rendered) ≡ true
shown-IsVerified m short e solid h =
    has_part-of_IsPart short (rstrip m.rendered) (IsPart-rstrip short m.rendered solid shown)
  where
    shown : IsPart short m.rendered
    shown = elim (Bool-cases (has_part short m.rendered)) [
      | inl f ↦ IsPart-of_has_part short m.rendered f
      | inr f ↦
          IsPart-trans short m.code m.rendered (after_first-IsPart "::" m.code short e)
            (IsPart-of_has_part m.code m.rendered (ground (arith, h, f)))
    ]

kept_record-IsVerified :
    (name : String) (m : CompilerMessage) (span : Span) (ds : List Diagnostic)
    → HasSolidName m
    → kept_record name m span ≡ some ds
    → All IsVerified ds
unfolding kept_record
kept_record-IsVerified name m span ds solid h = elim (Option-cases (after_first "::" m.code)) [
  | inl e ↦ let bad : none ≡ some ds = rw (kept_record, e) at h in ground arith
  | inr (short, e) ↦
      elim (Bool-cases (not (has_part short m.rendered) && not (has_part m.code m.rendered))) [
        | inl f ↦
            let got : some [] ≡ some ds = rw (kept_record, e, f) at h in
            let same : [] ≡ ds = cc got in subst (All IsVerified) same tt
        | inr f ↦ elim (Option-cases (doc_url_of m.children)) [
          | inl g ↦ let bad : none ≡ some ds = rw (kept_record, e, f, g) at h in ground arith
          | inr (url, g) ↦
              let got : some (diagnostic name m span url ∷ []) ≡ some ds =
                rw (kept_record, e, f, g) at h in
              let same : diagnostic name m span url ∷ [] ≡ ds = cc got in
              subst (All IsVerified) same
                ((short, e, shown-IsVerified m short e (solid short e) f), tt)
        ]
      ]
]

none_kept :
    (ds : List Diagnostic) → Path (Option (List Diagnostic)) (some []) (some ds) → All IsVerified ds
none_kept ds h = let same : [] ≡ ds = cc h in subst (All IsVerified) same tt

records_of-IsVerified :
    (name : String) (m : CompilerMessage) (ds : List Diagnostic)
    → HasSolidName m
    → records_of name m ≡ some ds
    → All IsVerified ds
unfolding records_of
records_of-IsVerified name m ds solid h = elim (Bool-cases (starts_with m.code "clippy::")) [
  | inr e ↦ none_kept ds (rw (records_of, e) at h)
  | inl e ↦ elim (Option-cases (first (keep (λ s. s.is_primary) m.spans))) [
    | inl f ↦ none_kept ds (rw (records_of, e, f) at h)
    | inr (span, f) ↦ elim (Bool-cases (m.rendered == "" || elsewhere span.file_name)) [
      | inl g ↦ none_kept ds (rw (records_of, e, f, g) at h)
      | inr g ↦ kept_record-IsVerified name m span ds solid (rw (records_of, e, f, g) at h)
    ]
  ]
]

pub extract-IsVerified :
    (ms : List CompilerMessage) (name : String) (ds : List Diagnostic)
    → All HasSolidName ms
    → extract ms name ≡ some ds
    → All IsVerified ds
unfolding extract
extract-IsVerified [] name ds solid h = none_kept ds h
extract-IsVerified (m ∷ ms) name ds solid h = elim (Option-cases (records_of name m)) [
  | inl e ↦ let bad : none ≡ some ds = rw (extract, e) at h in ground arith
  | inr (here, e) ↦ elim (Option-cases (extract ms name)) [
    | inl f ↦ let bad : none ≡ some ds = rw (extract, e, f) at h in ground arith
    | inr (more, f) ↦
        let got : some (here ++ more) ≡ some ds = rw (extract, e, f) at h in
        let same : here ++ more ≡ ds = cc got in
        subst (All IsVerified) same (
          All-append IsVerified here more (records_of-IsVerified name m here solid.0 e)
            (extract-IsVerified ms name more solid.1 f))
  ]
]
