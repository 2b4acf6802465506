-- ===== src/Probe/Joined.antt =====
-- When the resolvers are compared as consistent (agent/internal/runner/field.go).
use infracheck_appliance.Base.{
  ◌<◌, String, Bool, true, false, ◌&&◌, ◌↔◌, inl, inr, List, [], ◌∷◌, ◌≡◌, refl, ◌∙◌, arith, str_eq,
  eq_iff, ltb, length, Bool-cases, All,
}
use infracheck_appliance.Base.Result.{Result, ok, err}
use infracheck_appliance.Base.Text.{text_lt}
use infracheck_appliance.Base.Sort.{sort_with}
use infracheck_appliance.Base.Dict.{insert, length-insert}
use infracheck_appliance.Base.Int.{ℤ}
use infracheck_appliance.Base.Float.{Floats}
use infracheck_appliance.Health.Advanced.{AdvancedResult}
use infracheck_appliance.Probe.{base_advanced}
use infracheck_appliance.Probe.Resolve.{
  DnsIntegrityDetails, dns_integrity, or_example, compared, Comparison, joined, compare_answer,
  compare_answers, no_answers, asked,
}

abbrev pub Answers : Type 0
Answers = List (String × Result (List String))

-- The answer is joined to the text.
abbrev pub JoinsTo : String → Result (List String) → Type 0
JoinsTo text (err e) = ⊥
JoinsTo text (ok answers) = joined answers ≡ text

abbrev pub IsFilled : Result (List String) → Type 0
IsFilled (err e) = Unit
IsFilled (ok answers) = str_eq (joined answers) "" ≡ false

abbrev pub AllJoin : String → Answers → Type 0
AllJoin text = All (λ (r : String × Result (List String)). JoinsTo text r.1)

abbrev pub AllFilled : Answers → Type 0
AllFilled = All (λ (r : String × Result (List String)). IsFilled r.1)

abbrev is_consistent : Comparison → Bool
is_consistent c = c.details.consistent

compare_answers-false :
    (rs : Answers) (c : Comparison)
    → is_consistent c ≡ false
    → is_consistent (compare_answers rs c) ≡ false
unfolding compare_answers compare_answer
compare_answers-false [] c h = h
compare_answers-false ((n, err e) ∷ rs) c h =
    compare_answers-false rs (compare_answer n (err e) c) refl
compare_answers-false ((n, ok xs) ∷ rs) c h =
    compare_answers-false rs (compare_answer n (ok xs) c) (ground (arith, h))

-- Once a resolver has answered, the others are compared with it.
compare_answers-canonical :
    (rs : Answers) (c : Comparison)
    → str_eq c.canonical "" ≡ false
    → (is_consistent (compare_answers rs c) ≡ true)
      ↔ ((is_consistent c ≡ true) × AllJoin c.canonical rs)
unfolding compare_answers compare_answer
compare_answers-canonical [] c h = (λ s. (s, tt), λ s. s.0)
compare_answers-canonical ((n, err e) ∷ rs) c h = (
  λ s. absurd (ground (arith, s, compare_answers-false rs (compare_answer n (err e) c) refl)),
  λ s. absurd (s.1.0),
)
compare_answers-canonical ((n, ok xs) ∷ rs) c h =
    let ih =
      compare_answers-canonical rs
        (record c {
          details = record c.details {
            answers = insert n (sort_with text_lt xs) c.details.answers;
            consistent = c.details.consistent && str_eq (joined xs) c.canonical;
          };
        })
        h in
    let same = eq_iff (joined xs) c.canonical in
    rw h (
      λ s. (ground (arith, (ih.0 s).0), (same.0 (ground (arith, (ih.0 s).0)), (ih.0 s).1)),
      λ s. ih.1 (ground (arith, s.0, same.1 s.1.0), s.1.1),
    )

compare_answers-agree :
    (rs : Answers) (c : Comparison)
    → AllFilled rs
    → c.canonical ≡ ""
    → is_consistent c ≡ true
    → (is_consistent (compare_answers rs c) ≡ true) ↔ ((text : String) × AllJoin text rs)
unfolding compare_answers compare_answer
compare_answers-agree [] c given none_yet so_far = (λ s. ("", tt), λ s. so_far)
compare_answers-agree ((n, err e) ∷ rs) c given none_yet so_far = (
  λ s. absurd (ground (arith, s, compare_answers-false rs (compare_answer n (err e) c) refl)),
  λ s. absurd (s.1.0),
)
compare_answers-agree ((n, ok xs) ∷ rs) c given none_yet so_far =
    let ih =
      compare_answers-canonical rs
        (record {
          details = record c.details {
            answers = insert n (sort_with text_lt xs) c.details.answers;
          };
          canonical = joined xs;
        })
        given.0 in
    rw none_yet (λ s. (joined xs, (refl, (ih.0 s).1)), λ s. ih.1 (so_far, rw s.1.0 (s.1.1)))

one_more :
    (n : String) (r : Result (List String)) (c : Comparison)
    → 0 < length (compare_answer n r c).details.answers
unfolding compare_answer
one_more n (err e) c = length-insert n _ c.details.answers
one_more n (ok xs) c = ground (arith, length-insert n (sort_with text_lt xs) c.details.answers)

compare_answers-length :
    (rs : Answers) (c : Comparison)
    → 0 < length c.details.answers
    → 0 < length (compare_answers rs c).details.answers
unfolding compare_answers
compare_answers-length [] c h = h
compare_answers-length ((n, r) ∷ rs) c h =
    compare_answers-length rs (compare_answer n r c) (one_more n r c)

module _ (fl : Floats) (encode : DnsIntegrityDetails → String) (now : ℤ) (duration : fl.F)
    (site domain : String) where
  compared-success :
      (d : DnsIntegrityDetails) (r : AdvancedResult fl.F)
      → (compared fl encode duration d r).success ≡ (d.consistent && ltb 0 (length d.answers))
  compared-success d r = elim (Bool-cases (d.consistent && ltb 0 (length d.answers))) [
    | inl done ↦ rw done refl
    | inr differ ↦ rw differ refl
  ]

  pub dns_integrity-joined :
      (resolvers : List (String × (String → Result (List String))))
      → AllFilled (asked (or_example domain) resolvers)
      → ((dns_integrity fl encode now duration site domain resolvers).success ≡ true) ↔ (
          (0 < length resolvers)
          × ((text : String) × AllJoin text (asked (or_example domain) resolvers)))
  unfolding dns_integrity
  dns_integrity-joined [] given =
      (λ s. absurd (unfold compare_answers in ground (arith, s)), λ s. absurd (omega (arith, s.0)))
  dns_integrity-joined ((n, lookup_host) ∷ resolvers) given =
      let start = no_answers domain in
      let first = compare_answer n (lookup_host (or_example domain)) start in
      let all : DnsIntegrityDetails =
        (compare_answers (asked (or_example domain) ((n, lookup_host) ∷ resolvers))
          start).details in
      let agree =
        compare_answers-agree (asked (or_example domain) ((n, lookup_host) ∷ resolvers)) start given
          refl refl in
      let longer : 0 < length all.answers =
        unfold compare_answers in
        compare_answers-length (asked (or_example domain) resolvers) first
          (one_more n (lookup_host (or_example domain)) start) in
      let judged =
        compared-success all
          (base_advanced fl now site "dns_integrity" "DNS integrity" (or_example domain)) in
      (
        λ s. (omega arith, agree.0 (ground (arith, judged, s))),
        λ s. judged ∙ ground (arith, agree.1 s.1, longer),
      )
