-- ===== src/Probe/Agreed.antt =====
-- When the comparison of the resolvers succeeds (agent/internal/runner/field.go).
use infracheck_appliance.Base.{
  ◌<◌, String, true, false, ◌≡◌, ◌↔◌, List, [], ◌∷◌, sym, ap, subst, arith, str_eq, eq_iff, count,
  length, All, Bool-cases, inl, inr,
}
use infracheck_appliance.Base.Result.{Result, ok, err}
use infracheck_appliance.Base.Text.{text_lt, join}
use infracheck_appliance.Base.Sort.{sort_with, sort_with-All, sort_with-length}
use infracheck_appliance.Base.SortTexts.{sort_iff}
use infracheck_appliance.Base.Commas.{IsName, is_blank, join-filled, join-injective}
use infracheck_appliance.Base.Int.{ℤ}
use infracheck_appliance.Base.Float.{Floats}
use infracheck_appliance.Probe.Resolve.{
  DnsIntegrityDetails, dns_integrity, or_example, joined, asked,
}
use infracheck_appliance.Probe.Joined.{Answers, IsFilled, AllJoin, AllFilled, dns_integrity-joined}

-- The resolver answered these addresses, each as often, in whatever order.
abbrev pub Agrees : List String → Result (List String) → Type 0
Agrees addresses (err e) = ⊥
Agrees addresses (ok answers) = (a : String) → count (str_eq a) answers ≡ count (str_eq a) addresses

-- Some address is answered, and no address is empty or has a comma.
abbrev pub Given : Result (List String) → Type 0
Given (err e) = Unit
Given (ok answers) = (0 < length answers) × All IsName answers

abbrev pub AllAgree : List String → Answers → Type 0
AllAgree addresses = All (λ (r : String × Result (List String)). Agrees addresses r.1)

abbrev pub AllGiven : Answers → Type 0
AllGiven = All (λ (r : String × Result (List String)). Given r.1)

not_empty : (s : String) → is_blank s ≡ false → str_eq s "" ≡ false
not_empty s h = elim (Bool-cases (str_eq s "")) [
  | inl same ↦ ground (arith, h, ap is_blank ((eq_iff s "").0 same))
  | inr other ↦ other
]

join-not_empty :
    (ss : List String) → 0 < length ss → All IsName ss → str_eq (join ss ",") "" ≡ false
join-not_empty [] some_one names = absurd (omega (arith, some_one))
join-not_empty (s ∷ ss) some_one names = not_empty _ (join-filled s ss names.0)

Given-IsFilled : (r : Result (List String)) → Given r → IsFilled r
Given-IsFilled (err e) h = tt
Given-IsFilled (ok answers) h =
    join-not_empty (sort_with text_lt answers)
      (omega (arith, sort_with-length text_lt answers, h.0))
      (sort_with-All text_lt IsName answers h.1)

AllGiven-AllFilled : (rs : Answers) → AllGiven rs → AllFilled rs
AllGiven-AllFilled [] h = tt
AllGiven-AllFilled ((n, r) ∷ rs) h = (Given-IsFilled r h.0, AllGiven-AllFilled rs h.1)

-- Names are joined to the same text exactly if they are the same in some order.
joined_iff :
    (ss ts : List String)
    → All IsName ss
    → All IsName ts
    → (joined ss ≡ joined ts) ↔ ((a : String) → count (str_eq a) ss ≡ count (str_eq a) ts)
joined_iff ss ts p q = (
  λ h. (sort_iff ss ts).0 (
      join-injective (sort_with text_lt ss) (sort_with text_lt ts)
        (sort_with-All text_lt IsName ss p) (sort_with-All text_lt IsName ts q) h),
  λ h. ap (λ us. join us ",") ((sort_iff ss ts).1 h),
)

AllAgree-AllJoin : (xs : List String) (rs : Answers) → AllAgree xs rs → AllJoin (joined xs) rs
AllAgree-AllJoin xs [] h = tt
AllAgree-AllJoin xs ((n, err e) ∷ rs) h = absurd h.0
AllAgree-AllJoin xs ((n, ok ys) ∷ rs) h =
    (ap (λ us. join us ",") ((sort_iff ys xs).1 h.0), AllAgree-AllJoin xs rs h.1)

AllJoin-AllAgree :
    (xs : List String) (rs : Answers)
    → All IsName xs
    → AllGiven rs
    → AllJoin (joined xs) rs
    → AllAgree xs rs
AllJoin-AllAgree xs [] names given h = tt
AllJoin-AllAgree xs ((n, err e) ∷ rs) names given h = absurd h.0
AllJoin-AllAgree xs ((n, ok ys) ∷ rs) names given h =
    ((joined_iff ys xs given.0.1 names).0 h.0, AllJoin-AllAgree xs rs names given.1 h.1)

agreed :
    (rs : Answers) (text : String)
    → AllGiven rs
    → AllJoin text rs
    → (xs : List String) × AllAgree xs rs
agreed [] text given h = ([], tt)
agreed ((n, err e) ∷ rs) text given h = absurd h.0
agreed ((n, ok xs) ∷ rs) text given h = (
  xs,
  AllJoin-AllAgree xs ((n, ok xs) ∷ rs) given.0.1 given
      (subst (λ t. AllJoin t ((n, ok xs) ∷ rs)) (sym h.0) h),
)

module _ (fl : Floats) (encode : DnsIntegrityDetails → String) (now : ℤ) (duration : fl.F)
    (site domain : String) where
  -- Where each resolver that answers without an error answers some address, and no address is empty or
  -- has a comma, the comparison succeeds exactly if there is a resolver, every resolver answers, and all
  -- answer the same addresses, each equally often, in any order.
  pub dns_integrity-success :
      (resolvers : List (String × (String → Result (List String))))
      → AllGiven (asked (or_example domain) resolvers)
      → ((dns_integrity fl encode now duration site domain resolvers).success ≡ true) ↔ (
          (0 < length resolvers)
          × ((addresses : List String) × AllAgree addresses (asked (or_example domain) resolvers)))
  dns_integrity-success resolvers given =
      let rs = asked (or_example domain) resolvers in
      let code =
        dns_integrity-joined fl encode now duration site domain resolvers
          (AllGiven-AllFilled rs given) in
      (
        λ s. ((code.0 s).0, agreed rs (code.0 s).1.0 given (code.0 s).1.1),
        λ s. code.1 (s.0, (joined s.1.0, AllAgree-AllJoin s.1.0 rs s.1.1)),
      )
