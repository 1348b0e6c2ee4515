-- ===== src/ResearchEval/Score/Grounded.antt =====
-- What makes an answer grounded.
use Prim.Native.String.{String}
use gpu_lab.Base.{contains-keep, ℕ, ◌≡◌, refl, sym, subst, ◌∙◌, ◌↔◌, ◌⊎◌, inl, inr, arith}
use gpu_lab.Base.{Bool, true, false, ◌&&◌, ◌||◌, not, Option, none, some, List, [], ◌∷◌}
use gpu_lab.Base.{◌==◌, nat_eq, string_eq, ==_refl, eq_of_==, length, contains, keep, Bool-cases}
use gpu_lab.Base.{and-true}
use gpu_lab.Base.Sorting.{contains-sorted, distinct, contains-distinct}
use gpu_lab.ResearchEval.Items.{ItemRun}
use gpu_lab.ResearchEval.Score.{
  Sources, Cited, cites, asserted_flag, grounded_flag, flags_of, is_invented, ungrounded,
  is_answered, final_of, FlagItem, score_flag,
}

empty-contains : (xs : List String) (f : String) → length xs ≡ 0 → contains xs f ≡ false
empty-contains [] f h = refl
empty-contains (x ∷ xs) f h = absurd (omega arith)

contains-empty : (xs : List String) → ((f : String) → contains xs f ≡ false) → length xs ≡ 0
contains-empty [] h = refl
contains-empty (x ∷ xs) h = absurd (let here = h x in let same = ==_refl x in ground arith)

asserted-contains :
    (cs : List Cited) (f : String) → asserted_flag cs f ≡ true → contains (flags_of cs) f ≡ true
asserted-contains [] f h = ground arith
asserted-contains (c ∷ cs) f h = elim (Bool-cases (c.flag == f)) [
  | inl same ↦
      let e : f ≡ c.flag = sym (eq_of_== c.flag f same) in
      let here : (f == c.flag) ≡ true = subst (λ y. (f == y) ≡ true) e (==_refl f) in ground arith
  | inr apart ↦ let later = asserted-contains cs f (ground arith) in ground arith
]

-- A flag that counts neither as a citation that must be in the reference nor against the answer.
abbrev pub is_excused : Option String → String → Bool
is_excused fake f = (elim fake [ none ↦ false | some g ↦ f == g ]) || f == "--help"

contains-ungrounded :
    (cs : List Cited) (fake : Option String) (f : String)
    → contains (ungrounded cs fake) f
      ≡ (asserted_flag cs f && not (grounded_flag cs f) && not (is_excused fake f))
unfolding ungrounded
contains-ungrounded cs fake f =
    let kept = keep (is_invented cs fake) (flags_of cs) in
    let whole =
      contains-sorted (distinct kept) f
      ∙ contains-distinct kept f
      ∙ contains-keep (is_invented cs fake) (flags_of cs) f in
    elim (Bool-cases (asserted_flag cs f)) [
      | inl e ↦ let listed = asserted-contains cs f e in ground arith
      | inr e ↦ ground arith
    ]

-- Every flag that the answer asserts stands in a reference, or is excused.
abbrev pub AllShown : List Cited → Option String → Type 0
AllShown cs fake =
    (f : String)
    → asserted_flag cs f ≡ true
    → (grounded_flag cs f ≡ true) ⊎ (is_excused fake f ≡ true)

none_invented-AllShown :
    (cs : List Cited) (fake : Option String) → (length (ungrounded cs fake) ≡ 0) ↔ AllShown cs fake
none_invented-AllShown cs fake = (
  λ h f asserted.
      let absent = empty-contains (ungrounded cs fake) f h in
      let whole = contains-ungrounded cs fake f in
      elim (Bool-cases (grounded_flag cs f)) [ inl e ↦ inl e | inr e ↦ inr (ground arith) ],
  λ shown. contains-empty (ungrounded cs fake) (λ f.
      let whole = contains-ungrounded cs fake f in
      elim (Bool-cases (asserted_flag cs f)) [
        | inr e ↦ ground arith
        | inl e ↦ elim (shown f e) [ inl g ↦ ground arith | inr g ↦ ground arith ]
      ]),
)

-- An answer about a flag is scored as grounded exactly if it was given and each flag that some line
-- asserts, the invented flag and --help excepted, stands in the reference of one of the lines that
-- cite it: not of every one.
pub score_flag-AllShown :
    (src : Sources) (item : FlagItem) (run : ItemRun) (claims : Bool) (expect : Option Bool)
    → ((score_flag src item run claims expect).grounded ≡ true) ↔ (
        (is_answered run.status ≡ true)
        × AllShown (cites src (final_of run) run.calls) item.fake_flag)
unfolding score_flag
score_flag-AllShown src item run claims expect =
    let cs = cites src (final_of run) run.calls in
    let fake = item.fake_flag in
    let exactly = none_invented-AllShown cs fake in
    (
      λ h.
          let both = and-true (is_answered run.status) (length (ungrounded cs fake) == 0) h in
          (both.0, exactly.0 (eq_of_== (length (ungrounded cs fake)) 0 both.1)),
      λ h.
          let zero_left = exactly.1 h.1 in
          let given = h.0 in
          let none_left : (length (ungrounded cs fake) == 0) ≡ true =
            rw zero_left (==_refl {A = ℕ} 0) in
          ground arith,
    )
