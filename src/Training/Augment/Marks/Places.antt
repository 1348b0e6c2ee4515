-- ===== src/Training/Augment/Marks/Places.antt =====
-- Which records are marked.
use mathlib.Core.List.{Permᴰ}
use mathlib.Core.List.Permᴰ
use gpu_lab.Base.{◌+◌, ℕ, suc, ◌≤◌, ◌<◌, ◌≡◌, refl, sym, subst, ap, arith, Bool, true, false}
use gpu_lab.Base.{List, [], ◌∷◌, ◌++◌, All, length, map}
use gpu_lab.Base.{contains, count_if, count_if-append, Bool-cases, inl, inr, ◌==◌, nat_eq, ==_refl}
use gpu_lab.Base.{eq_of_==, ◌∙◌}
use gpu_lab.Base.Members.{All-contains, All-at}
use gpu_lab.Base.Perms.{All-Perm, count_if-Perm, count_if-all}
use gpu_lab.Base.Random.{Random, Returns}
use gpu_lab.Training.Augment.{Source, Addition}
use gpu_lab.Training.Augment.Marks.{
  Wanted, Member, kept, added, uses_tool, tool_places, marked, mark_and_shuffle,
}

-- How often a number stands in a list.
abbrev times_in : List ℕ → ℕ → ℕ
times_in xs x = count_if (λ y. x == y) xs

absent-times_in : (xs : List ℕ) (x : ℕ) → contains xs x ≡ false → times_in xs x ≡ 0
absent-times_in [] x h = refl
absent-times_in (y ∷ ys) x h = ground (arith, h, absent-times_in ys x)

times_in-absent : (xs : List ℕ) (x : ℕ) → times_in xs x ≡ 0 → contains xs x ≡ false
times_in-absent [] x h = refl
times_in-absent (y ∷ ys) x h = ground (arith, h, times_in-absent ys x)

places-above : (k : ℕ) (es : List Member) (i : ℕ) → i < k → contains (tool_places k es) i ≡ false
unfolding tool_places
places-above k [] i h = refl
places-above k (e ∷ es) i h =
    let later = places-above (suc k) es i (omega arith) in
    elim (Bool-cases (uses_tool e)) [
      | inl u ↦ rw (tool_places, u) (ground (arith, later, h))
      | inr u ↦ rw (tool_places, u) later
    ]

places-once : (k : ℕ) (es : List Member) (x : ℕ) → times_in (tool_places k es) x ≤ 1
unfolding tool_places
places-once k [] x = omega arith
places-once k (e ∷ es) x =
    let later = places-once (suc k) es x in
    let above = places-above (suc k) es k (omega arith) in
    let fresh = absent-times_in (tool_places (suc k) es) k above in
    elim (Bool-cases (uses_tool e)) [
      | inr u ↦ rw (tool_places, u) later
      | inl u ↦ elim (Bool-cases (x == k)) [
        | inl same ↦
            let gone : times_in (tool_places (suc k) es) x ≡ 0 =
              subst (λ y. times_in (tool_places (suc k) es) y ≡ 0) (sym (eq_of_== x k same))
                fresh in
            rw (tool_places, u, same) (omega (arith, gone))
        | inr apart ↦ rw (tool_places, u, apart) (omega (arith, later))
      ]
    ]

-- Only places with a tool call are marked.
abbrev Within : List ℕ → ℕ → List Member → Type 0
Within offs k es = (j : ℕ) → k ≤ j → contains offs j ≡ true → contains (tool_places k es) j ≡ true

Within-tail :
    (offs : List ℕ) (k : ℕ) (e : Member) (es : List Member)
    → Within offs k (e ∷ es)
    → Within offs (suc k) es
unfolding tool_places
Within-tail offs k e es h j above off =
    let here = h j (omega (arith, above)) off in
    elim (Bool-cases (uses_tool e)) [
      | inl u ↦ let here = rw (tool_places, u) at here in ground (arith, here, above)
      | inr u ↦ rw (tool_places, u) at here
    ]

Within-head :
    (offs : List ℕ) (k : ℕ) (e : Member) (es : List Member)
    → Within offs k (e ∷ es)
    → contains offs k ≡ true
    → uses_tool e ≡ true
unfolding tool_places
Within-head offs k e es h off =
    let here = h k (omega arith) off in
    elim (Bool-cases (uses_tool e)) [
      | inl u ↦ u
      | inr u ↦
          let here = rw (tool_places, u) at here in
          let above = places-above (suc k) es k (omega arith) in ground (arith, here, above)
    ]

marked-uses :
    (offs : List ℕ) (k : ℕ) (es : List Member)
    → Within offs k es
    → All (λ m. m.1 ≡ true → uses_tool m.0 ≡ true) (marked offs k es)
unfolding marked
marked-uses offs k [] h = tt
marked-uses offs k (e ∷ es) h =
    (Within-head offs k e es h, marked-uses offs (suc k) es (Within-tail offs k e es h))

marked-entries : (offs : List ℕ) (k : ℕ) (es : List Member) → es ≡ map (λ m. m.0) (marked offs k es)
unfolding marked
marked-entries offs k [] = refl
marked-entries offs k (e ∷ es) = ap (λ xs. e ∷ xs) (marked-entries offs (suc k) es)

marked-count :
    (offs : List ℕ) (k : ℕ) (es : List Member)
    → Within offs k es
    → count_if (λ m. m.1) (marked offs k es) ≡ count_if (contains offs) (tool_places k es)
unfolding marked tool_places
marked-count offs k [] h = refl
marked-count offs k (e ∷ es) h =
    let later = marked-count offs (suc k) es (Within-tail offs k e es h) in
    elim (Bool-cases (uses_tool e)) [
      | inl u ↦ rw (marked, tool_places, u) (omega (arith, later))
      | inr u ↦ elim (Bool-cases (contains offs k)) [
        | inl off ↦ absurd (let bad = Within-head offs k e es h off in ground (arith, bad, u))
        | inr off ↦ rw (marked, tool_places, u, off) (omega (arith, later))
      ]
    ]

rest-none :
    (offs rest : List ℕ)
    → ((x : ℕ) → times_in offs x + times_in rest x ≤ 1)
    → count_if (contains offs) rest ≡ 0
rest-none offs [] once = refl
rest-none offs (y ∷ ys) once =
    let here = once y in
    let same = ==_refl y in
    let gone : times_in offs y ≡ 0 = ground (arith, here, same) in
    let absent = times_in-absent offs y gone in
    let later = rest-none offs ys (λ x. let at_x = once x in omega (arith, at_x)) in
    rw absent (omega (arith, later))

length-tool_places : (k : ℕ) (es : List Member) → length (tool_places k es) ≡ count_if uses_tool es
unfolding tool_places
length-tool_places k [] = refl
length-tool_places k (e ∷ es) = elim (Bool-cases (uses_tool e)) [
  | inl u ↦ rw (tool_places, u) (omega (arith, length-tool_places (suc k) es))
  | inr u ↦ rw (tool_places, u) (omega (arith, length-tool_places (suc k) es))
]

-- A sample of the places marks as many records as it has elements.
sample-count :
    (es : List Member) (offs rest : List ℕ)
    → Permᴰ (tool_places 0 es) (offs ++ rest)
    → count_if (contains offs) (tool_places 0 es) ≡ length offs
sample-count es offs rest p =
    let once : (x : ℕ) → times_in offs x + times_in rest x ≤ 1 = λ x. omega (
      arith,
      places-once 0 es x,
      count_if-Perm (λ y. x == y) p,
      count_if-append (λ y. x == y) offs rest,
    ) in
    omega (
      arith,
      count_if-Perm (contains offs) p,
      count_if-append (contains offs) offs rest,
      count_if-all (contains offs) offs (All-contains offs),
      rest-none offs rest once,
    )

-- A data set with the records `whole` in some order, of which so many are marked, each with a call.
pub record IsMarked (whole : List Member) (wanted : ℕ) (out : List (Member × Bool)) : Type 0 where
  pub same : Permᴰ whole (map (λ m. m.0) out)
  pub only_tools : All (λ m. m.1 ≡ true → uses_tool m.0 ≡ true) out
  pub number : count_if (λ m. m.1) out ≡ wanted

module _ (r : Random) (o : Wanted) where
  pub mark_and_shuffle-Returns :
      (v1 : List Source) (new : List Addition) (s : r.State)
      → o.off_count (count_if uses_tool (map kept v1 ++ map added new))
        ≤ count_if uses_tool (map kept v1 ++ map added new)
      → Returns
          (IsMarked
            (map kept v1 ++ map added new)
            (o.off_count (count_if uses_tool (map kept v1 ++ map added new))))
          (mark_and_shuffle r o v1 new)
          s
  unfolding mark_and_shuffle
  mark_and_shuffle-Returns v1 new s few =
      let out = map kept v1 ++ map added new in
      let places = tool_places 0 out in
      let n = length-tool_places 0 out in
      let enough : o.off_count (length places) ≤ length places =
        subst (λ k. o.off_count k ≤ k) (sym n) few in
      let (drawn, got, many) = r.sample-returns (o.off_count (length places)) places s enough in
      let (rest, parts) = r.sample-part (o.off_count (length places)) places s drawn got in
      let offs = drawn.0 in
      let from =
        r.sample-from (λ j. contains places j ≡ true) (o.off_count (length places)) places s drawn
          got (All-contains places) in
      let within : Within offs 0 out =
        λ j _ off. All-at (λ j. contains places j ≡ true) offs j from off in
      let done = marked offs 0 out in
      let kept_all = r.shuffle-Perm done drawn.1 in
      (
        (r.shuffle done drawn.1).0,
        (r.shuffle done drawn.1).1,
        rw (mark_and_shuffle, got) refl,
        record {
          same =
              subst (λ es. Permᴰ es (map (λ m. m.0) (r.shuffle done drawn.1).0))
                (sym (marked-entries offs 0 out)) (Permᴰ.map (λ m. m.0) kept_all);
          only_tools =
              All-Perm (λ m. m.1 ≡ true → uses_tool m.0 ≡ true) kept_all
                (marked-uses offs 0 out within);
          number =
              count_if-Perm (λ m. m.1) kept_all
              ∙ marked-count offs 0 out within
              ∙ sample-count out offs rest parts
              ∙ many
              ∙ ap o.off_count n;
        },
      )
