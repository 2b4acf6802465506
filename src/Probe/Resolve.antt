-- ===== src/Probe/Resolve.antt =====
-- The comparison of the resolvers' answers (agent/internal/runner/field.go).
use infracheck_appliance.Base.{
  String, Bool, true, false, ◌&&◌, List, [], ◌∷◌, if◌then◌else◌, str_eq, ltb, length,
}
use infracheck_appliance.Base.Int.{ℤ, pos}
use infracheck_appliance.Base.Text.{◌<>◌, text_lt, join}
use infracheck_appliance.Base.Decimal.{itoa}
use infracheck_appliance.Base.Sort.{sort_with}
use infracheck_appliance.Base.Dict.{Dict, insert}
use infracheck_appliance.Base.Float.{Floats}
use infracheck_appliance.Base.Result.{Result, ok, err}
use infracheck_appliance.Health.Advanced.{AdvancedResult}
use infracheck_appliance.Probe.{base_advanced}

pub record DnsIntegrityDetails : Type 0 where
  pub domain : String
  pub answers : Dict (List String)
  pub consistent : Bool

-- The details so far, and the answers of the first resolver that answered.
pub record Comparison : Type 0 where
  pub details : DnsIntegrityDetails
  pub canonical : String

abbrev pub joined : List String → String
joined answers = join (sort_with text_lt answers) ","

-- One resolver of the loop: its name, and what it answered.
unfoldable pub compare_answer : String → Result (List String) → Comparison → Comparison
compare_answer name (err e) c = record c {
  details = record c.details {
    answers = insert name (("error: " <> e) ∷ []) c.details.answers;
    consistent = false;
  };
}
compare_answer name (ok answers) c =
    let all = insert name (sort_with text_lt answers) c.details.answers in
    if str_eq c.canonical ""
    then record { details = record c.details { answers = all }; canonical = joined answers }
    else record c {
      details = record c.details {
        answers = all;
        consistent = c.details.consistent && str_eq (joined answers) c.canonical;
      };
    }

unfoldable pub compare_answers : List (String × Result (List String)) → Comparison → Comparison
compare_answers [] c = c
compare_answers ((name, r) ∷ rs) c = compare_answers rs (compare_answer name r c)

abbrev pub or_example : String → String
or_example domain = if str_eq domain "" then "example.com" else domain

abbrev pub no_answers : String → Comparison
no_answers domain = record {
  details = record { domain = or_example domain; answers = []; consistent = true };
  canonical = "";
}

abbrev pub asked :
    String → List (String × (String → Result (List String))) → List (String × Result (List String))
asked domain [] = []
asked domain ((name, lookup_host) ∷ resolvers) = (name, lookup_host domain) ∷ asked domain resolvers

abbrev text_of : Bool → String
text_of true = "true"
text_of false = "false"

module _ (fl : Floats) where
  open fl use {F}

  abbrev pub compared :
      (DnsIntegrityDetails → String) → F → DnsIntegrityDetails → AdvancedResult F → AdvancedResult F
  compared encode duration d r =
      let success = d.consistent && ltb 0 (length d.answers) in
      let done : AdvancedResult F = record r {
        details = encode d;
        duration_ms = duration;
        success = success;
        summary =
            "Compared "
            <> itoa (pos (length d.answers))
            <> " DNS resolver(s): consistent="
            <> text_of d.consistent;
      } in
      if success
      then done
      else record done { severity = "warning"; error = "DNS answers differ or a resolver failed" }

  -- What each resolver answers for the domain, under the resolvers' names.
  unfoldable pub dns_integrity :
      (DnsIntegrityDetails → String)
      → ℤ
      → F
      → String
      → String
      → List (String × (String → Result (List String)))
      → AdvancedResult F
  dns_integrity encode now duration site domain resolvers =
      compared encode duration
        (compare_answers (asked (or_example domain) resolvers) (no_answers domain)).details
        (base_advanced fl now site "dns_integrity" "DNS integrity" (or_example domain))
