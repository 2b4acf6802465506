-- ===== src/Verdict/Score.antt =====
-- The scores and the status of a site (agent/internal/verdict/verdict.go). A score is what `clamp`
-- answers, or a constant, and is never negative.
use infracheck_appliance.Base.{
  ℕ, ◌+◌, ◌-◌, ◌/◌, String, Bool, false, ◌&&◌, not, Option, none, some, List, [], ◌∷◌,
  if◌then◌else◌, str_eq, ltb, leb, length, ◌==◌,
}
use infracheck_appliance.Base.Int.{ℤ, pos, negsuc, leb_ℤ}
use infracheck_appliance.Base.Float.{Floats}
use infracheck_appliance.Verdict.{PingResult, Summary, Input, summarize, is_empty}
use infracheck_appliance.Verdict.Rules.{Verdict, rules}

pub record Scores : Type 0 where
  pub wan : ℕ
  pub dns : ℕ
  pub gateway : ℕ
  pub service : ℕ
  pub inventory : ℕ

pub record Health (F : Type 0) : Type 0 where
  pub timestamp : ℤ
  pub overall_health_score : ℕ
  pub wan_score : ℕ
  pub dns_score : ℕ
  pub gateway_lan_score : ℕ
  pub service_availability : ℕ
  pub device_inventory_score : ℕ
  pub status : String
  pub verdicts : List (Verdict F)
  pub recommendations : List String

unfoldable pub clamp : ℤ → ℕ
clamp (negsuc n) = 0
clamp (pos n) = if ltb 100 n then 100 else n

unfoldable pub minimum : ℕ → ℕ → ℕ
minimum a b = if ltb a b then a else b

abbrev pub sum : List ℕ → ℕ
sum [] = 0
sum (n ∷ ns) = n + sum ns

unfoldable pub average : List ℕ → ℕ
average ns = if length ns == 0 then 0 else sum ns / length ns

-- `100 - n`, for an int64. Near the least one Go's subtraction wraps around to a negative number, of
-- which only the sign is kept.
abbrev from_hundred : ℤ → ℤ
from_hundred (pos n) = if leb n 100 then pos (100 - n) else negsuc (n - 101)
from_hundred (negsuc n) = if leb 9_223_372_036_854_775_707 n then negsuc 0 else pos (101 + n)

module _ (fl : Floats) where
  open fl use {F, ratio, add, sub, mul, lt, eq, to_int}

  abbrev whole : ℕ → F
  whole n = ratio n 1

  unfoldable pub wan_score : Summary F → ℕ
  wan_score s =
      if is_empty s.internet
      then 100
      else (if lt s.internet_up_ratio (whole 1)
          then clamp (to_int (mul s.internet_up_ratio (whole 80)))
          else clamp (to_int (sub (whole 100) (mul s.internet_max_loss (whole 10)))))

  unfoldable pub gateway_score : Option (PingResult F) → ℕ
  gateway_score none = 100
  gateway_score (some g) =
      if not g.up
      then 0
      else (if lt (whole 0) g.loss_percent
          then clamp (from_hundred (to_int (mul g.loss_percent (whole 30))))
          else (if lt (whole 20) g.latency_ms then 70 else 100))

  unfoldable pub dns_score : Summary F → ℕ
  dns_score s =
      if s.has_dns
      then clamp (
          to_int (
            mul
              (add (mul s.system_dns_success (ratio 6 10)) (mul s.public_dns_success (ratio 4 10)))
              (whole 100)))
      else 100

  abbrev at_most_if : Bool → ℕ → ℕ → ℕ
  at_most_if b bound score = if b && ltb bound score then bound else score

  abbrev few_days : Option ℤ → Bool
  few_days none = false
  few_days (some d) = leb_ℤ d (pos 14)

  unfoldable pub service_score : Summary F → ℕ
  service_score s =
      if is_empty s.http
      then 100
      else at_most_if (few_days s.min_tls_days) 80 (
          at_most_if (lt (whole 3000) s.http_max_duration) 70
            (clamp (to_int (mul s.http_up_ratio (whole 100)))))

  -- A critical verdict on the WAN bounds its score.
  unfoldable pub wan_bounded : List (Verdict F) → ℕ → ℕ
  wan_bounded [] n = n
  wan_bounded (v ∷ vs) n =
      wan_bounded vs
        (if str_eq v.severity "critical" && str_eq v.category "wan" then minimum n 20 else n)

  unfoldable pub score : Summary F → List (Verdict F) → Scores
  score s verdicts = record {
    wan = wan_bounded verdicts (wan_score s);
    dns = dns_score s;
    gateway = gateway_score s.gateway;
    service = service_score s;
    inventory = 100;
  }

  -- The loop stops at a critical verdict.
  unfoldable pub status_of : String → List (Verdict F) → String
  status_of status [] = status
  status_of status (v ∷ vs) =
      if str_eq v.severity "critical"
      then "critical"
      else status_of (if str_eq v.severity "warning" then "warning" else status) vs

  unfoldable pub recommendations_of : List (Verdict F) → List String
  recommendations_of [] = []
  recommendations_of (v ∷ vs) =
      let rest = recommendations_of vs in
      if str_eq v.recommendation "" then rest else v.recommendation ∷ rest

  abbrev pub now_or : ℤ → Option ℤ → ℤ
  now_or clock none = clock
  now_or clock (some t) = t

  abbrev health_of : ℤ → Scores → List (Verdict F) → Health F
  health_of now scores verdicts = record {
    timestamp = now;
    overall_health_score =
        average (scores.wan ∷ scores.dns ∷ scores.gateway ∷ scores.service ∷ scores.inventory ∷ []);
    wan_score = scores.wan;
    dns_score = scores.dns;
    gateway_lan_score = scores.gateway;
    service_availability = scores.service;
    device_inventory_score = scores.inventory;
    status = status_of "healthy" verdicts;
    verdicts = verdicts;
    recommendations = recommendations_of verdicts;
  }

  -- `clock` is the time that the clock shows, for an input without one.
  unfoldable pub evaluate : ℤ → Input F → Health F
  evaluate clock input =
      let now = now_or clock input.now in
      let state = summarize fl input in
      let verdicts = rules fl now state in health_of now (score state verdicts) verdicts
