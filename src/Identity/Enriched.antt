-- ===== src/Identity/Enriched.antt =====
-- What the enrichment of a device answers (agent/internal/runner/identity.go).
use infracheck_appliance.Base.{
  String, Bool, false, ◌||◌, List, [], ◌∷◌, ◌++◌, ◌≡◌, refl, sym, ◌∙◌, arith, ap, map, any,
  any-append, append-nil, append_assoc, str_eq, eq_iff, either, Bool-cases, inl, inr, All,
}
use infracheck_appliance.Base.Distinct.{DistinctBy, DistinctBy-snoc}
use infracheck_appliance.Base.Text.{first_non_empty}
use infracheck_appliance.Identity.{
  IdentitySource, IdentityTarget, IdentityResult, Surroundings, contains_string,
}
use infracheck_appliance.Identity.Enrich.{
  add_services, with_source, with_sources, blank, refused, sources_of, enrich,
}

add_services-any :
    (t : String) (out services : List String)
    → contains_string (add_services out services) t
      ≡ (contains_string out t || contains_string services t)
unfolding add_services
add_services-any t out [] = ground arith
add_services-any t out (s ∷ services) = ground (
  arith,
  add_services-any t out services,
  add_services-any t (out ++ s ∷ []) services,
  any-append (λ (v : String). str_eq v t) out (s ∷ []),
  eq_iff s t,
)

abbrev pub Distinct : List String → Type 0
Distinct = DistinctBy (λ s t. str_eq t s)

others :
    (s : String) (out : List String)
    → contains_string out s ≡ false
    → All (λ x. str_eq s x ≡ false) out
others s [] h = tt
others s (x ∷ out) h = (ground (arith, h, eq_iff x s, eq_iff s x), others s out (ground (arith, h)))

add_services-Distinct :
    (out services : List String) → Distinct out → Distinct (add_services out services)
unfolding add_services
add_services-Distinct out [] d = d
add_services-Distinct out (s ∷ services) d = elim (Bool-cases (contains_string out s)) [
  | inl old ↦ rw old (add_services-Distinct out services d)
  | inr new ↦ rw new (
      add_services-Distinct (out ++ s ∷ []) services
        (DistinctBy-snoc (λ (a : String) b. str_eq b a) out s d (others s out new)))
]

abbrev pub hostnames : List IdentitySource → List String
hostnames = map (λ (s : IdentitySource). s.hostname)

abbrev pub offers : List IdentitySource → String → Bool
offers sources t = any (λ (s : IdentitySource). contains_string s.services t) sources

with_sources-hostname :
    (r : IdentityResult) (ss : List IdentitySource)
    → (with_sources r ss).hostname ≡ first_non_empty (r.hostname ∷ hostnames ss)
unfolding with_sources
with_sources-hostname r [] = ground (arith, eq_iff r.hostname "")
with_sources-hostname r (s ∷ ss) = ground (arith, with_sources-hostname (with_source r s) ss)

with_sources-sources :
    (r : IdentityResult) (ss : List IdentitySource) → (with_sources r ss).sources ≡ r.sources ++ ss
unfolding with_sources
with_sources-sources r [] = sym (append-nil r.sources)
with_sources-sources r (s ∷ ss) =
    with_sources-sources (with_source r s) ss ∙ append_assoc r.sources (s ∷ []) ss

with_sources-services :
    (t : String) (r : IdentityResult) (ss : List IdentitySource)
    → contains_string (with_sources r ss).services t ≡ (contains_string r.services t || offers ss t)
unfolding with_sources
with_sources-services t r [] = ground arith
with_sources-services t r (s ∷ ss) =
    ground (
      arith,
      with_sources-services t (with_source r s) ss,
      add_services-any t r.services s.services,
    )

with_sources-Distinct :
    (r : IdentityResult) (ss : List IdentitySource)
    → Distinct r.services
    → Distinct (with_sources r ss).services
unfolding with_sources
with_sources-Distinct r [] d = d
with_sources-Distinct r (s ∷ ss) d =
    with_sources-Distinct (with_source r s) ss (add_services-Distinct r.services s.services d)

-- What the answer holds of its sources.
pub record IsCollected (r : IdentityResult) : Type 0 where
  pub hostname : r.hostname ≡ first_non_empty (hostnames r.sources)
  pub offered : (t : String) → contains_string r.services t ≡ offers r.sources t
  pub distinct : Distinct r.services

with_sources-IsCollected :
    (r : IdentityResult) (ss : List IdentitySource)
    → r.hostname ≡ ""
    → r.services ≡ []
    → r.sources ≡ []
    → IsCollected (with_sources r ss)
with_sources-IsCollected r ss no_name no_services no_sources =
    let all : Path (List IdentitySource) (with_sources r ss).sources ss =
      with_sources-sources r ss ∙ ap (λ (l : List IdentitySource). l ++ ss) no_sources in
    record {
      hostname =
          with_sources-hostname r ss
          ∙ rw all (ap (λ (h : String). first_non_empty (h ∷ hostnames ss)) no_name);
      offered = λ t.
          with_sources-services t r ss
          ∙ rw all (ap (λ (l : List String). contains_string l t || offers ss t) no_services);
      distinct = with_sources-Distinct r ss (rw no_services tt);
    }

-- The answer has the first name that is not empty in the order of its sources, and exactly the services
-- that they offer, each once.
pub enrich-IsCollected :
    (is_ip : String → Bool) (paths : List String) (w : Surroundings) (target : IdentityTarget)
    → IsCollected (enrich is_ip paths w target)
unfolding enrich
enrich-IsCollected is_ip paths w target =
    either IsCollected (is_ip target.ip)
      (with_sources (blank target) (sources_of is_ip paths w target)) (refused target)
      (with_sources-IsCollected (blank target) (sources_of is_ip paths w target) refl refl refl)
      (record { hostname = refl; offered = λ t. refl; distinct = tt })
