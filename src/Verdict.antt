-- ===== src/Verdict.antt =====
-- The samples that a verdict is drawn from, and their summary (agent/internal/verdict/verdict.go;
-- the samples' types stand in agent/internal/storage/storage.go). A time is a number of nanoseconds.
-- Go leaves the order of a map's entries open; here it is the one in which they were put in.
pub mod Rules
pub mod Score
pub mod Latest
pub mod Status
pub mod Bounds
mod Tests
use infracheck_appliance.Base.{
  ℕ, suc, ◌+◌, String, Bool, true, false, ◌&&◌, ◌||◌, not, Option, none, some, List, [], ◌∷◌,
  if◌then◌else◌, str_eq, length, keep, ◌==◌,
}
use infracheck_appliance.Base.Int.{ℤ, pos, ltb_ℤ}
use infracheck_appliance.Base.Text.{◌<>◌, text_lt}
use infracheck_appliance.Base.Float.{Floats}
use infracheck_appliance.Base.Dict.{Dict, lookup, insert, values}

pub record PingResult (F : Type 0) : Type 0 where
  pub id : ℤ
  pub timestamp : ℤ
  pub site_id : String
  pub target_name : String
  pub target_host : String
  pub target_type : String
  pub up : Bool
  pub latency_ms : F
  pub loss_percent : F
  pub jitter_ms : F
  pub error : String

pub record DnsResult (F : Type 0) : Type 0 where
  pub id : ℤ
  pub timestamp : ℤ
  pub site_id : String
  pub resolver_name : String
  pub resolver_address : String
  pub domain : String
  pub record_type : String
  pub success : Bool
  pub duration_ms : F
  pub answer_count : ℤ
  pub error : String

pub record HttpResult (F : Type 0) : Type 0 where
  pub id : ℤ
  pub timestamp : ℤ
  pub site_id : String
  pub name : String
  pub url : String
  pub up : Bool
  pub status_code : ℤ
  pub duration_ms : F
  pub tls_valid : Bool
  pub tls_days_until_expiry : ℤ
  pub error : String

-- `now` is `none` for the zero time.
pub record Input (F : Type 0) : Type 0 where
  pub gateway : List (PingResult F)
  pub internet : List (PingResult F)
  pub dns : List (DnsResult F)
  pub http : List (HttpResult F)
  pub now : Option ℤ

pub record Summary (F : Type 0) : Type 0 where
  pub gateway : Option (PingResult F)
  pub internet : List (PingResult F)
  pub internet_up_ratio : F
  pub internet_max_loss : F
  pub system_dns_success : F
  pub public_dns_success : F
  pub has_dns : Bool
  pub http : List (HttpResult F)
  pub http_up_ratio : F
  pub http_max_duration : F
  pub min_tls_days : Option ℤ

-- The loop that keeps, for each key, the first of the latest results.
module _ {A : Type 0} (key : A → String) (time : A → ℤ) where
  abbrev pub newer : Option A → A → A
  newer none r = r
  newer (some s) r = if ltb_ℤ (time s) (time r) then r else s

  unfoldable pub latest_in : Dict A → List A → Dict A
  latest_in seen [] = seen
  latest_in seen (r ∷ rs) = latest_in (insert (key r) (newer (lookup (key r) seen) r) seen) rs

-- `sort.Slice` by a name
module _ {A : Type 0} (name : A → String) where
  unfoldable pub put_sorted : A → List A → List A
  put_sorted r [] = r ∷ []
  put_sorted r (s ∷ rs) = if text_lt (name s) (name r) then s ∷ put_sorted r rs else r ∷ s ∷ rs

  unfoldable pub sort_by : List A → List A
  unfolding put_sorted
  sort_by [] = []
  sort_by (r ∷ rs) = put_sorted r (sort_by rs)

abbrev pub head_option {ℓ} : {A : Type ℓ} → List A → Option A
head_option [] = none
head_option (x ∷ xs) = some x

abbrev pub is_empty {ℓ} : {A : Type ℓ} → List A → Bool
is_empty [] = true
is_empty (x ∷ xs) = false

abbrev sooner : Option ℤ → ℤ → Option ℤ
sooner none days = some days
sooner (some d) days = if ltb_ℤ days d then some days else some d

module _ {F : Type 0} where
  abbrev pub ping_key : PingResult F → String
  ping_key r = r.target_name <> "|" <> r.target_host

  unfoldable pub latest_per_target : List (PingResult F) → List (PingResult F)
  latest_per_target rs =
      sort_by (λ r. r.target_name) (values (latest_in ping_key (λ r. r.timestamp) [] rs))

  abbrev pub dns_key : DnsResult F → String
  dns_key r = r.resolver_name <> "|" <> r.domain <> "|" <> r.record_type

  unfoldable pub latest_dns_per_key : List (DnsResult F) → List (DnsResult F)
  latest_dns_per_key rs = values (latest_in dns_key (λ r. r.timestamp) [] rs)

  abbrev pub http_key : HttpResult F → String
  http_key r = r.name <> "|" <> r.url

  unfoldable pub latest_http_per_target : List (HttpResult F) → List (HttpResult F)
  latest_http_per_target rs =
      sort_by (λ r. r.name) (values (latest_in http_key (λ r. r.timestamp) [] rs))

  -- `r.ResolverName == "system" || r.ResolverAddress == "auto"`
  abbrev is_system : DnsResult F → Bool
  is_system r = str_eq r.resolver_name "system" || str_eq r.resolver_address "auto"

  abbrev min_days : Option ℤ → List (HttpResult F) → Option ℤ
  min_days least [] = least
  min_days least (r ∷ rs) =
      min_days
        (if ltb_ℤ (pos 0) r.tls_days_until_expiry
          then sooner least r.tls_days_until_expiry
          else least)
        rs

module _ (fl : Floats) where
  open fl use {F, of_int, ratio, div, max}

  -- float64(n) / float64(m)
  abbrev part : ℕ → ℕ → F
  part n m = div (of_int (pos n)) (of_int (pos m))

  abbrev maximum : {A : Type 0} → (A → F) → F → List A → F
  maximum f most [] = most
  maximum f most (r ∷ rs) = maximum f (max most (f r)) rs

  -- 1 where there is no sample
  abbrev success_ratio : List (DnsResult F) → F
  success_ratio [] = ratio 1 1
  success_ratio (r ∷ rs) = part (length (keep (λ q. q.success) (r ∷ rs))) (length (r ∷ rs))

  abbrev summarize_with :
      Option (PingResult F)
      → List (PingResult F)
      → List (DnsResult F)
      → List (HttpResult F)
      → Summary F
  summarize_with gateway internet dns http = record {
    gateway = gateway;
    internet = internet;
    internet_up_ratio =
        if is_empty internet
        then ratio 1 1
        else part (length (keep (λ r. r.up) internet)) (length internet);
    internet_max_loss = maximum (λ r. r.loss_percent) (ratio 0 1) internet;
    system_dns_success = success_ratio (keep is_system dns);
    public_dns_success = success_ratio (keep (λ r. not (is_system r)) dns);
    has_dns = not (is_empty dns);
    http = http;
    http_up_ratio =
        if is_empty http then ratio 0 1 else part (length (keep (λ r. r.up) http)) (length http);
    http_max_duration = maximum (λ r. r.duration_ms) (ratio 0 1) http;
    min_tls_days = min_days none http;
  }

  unfoldable pub summarize : Input F → Summary F
  summarize input =
      summarize_with (head_option input.gateway) (latest_per_target input.internet)
        (latest_dns_per_key input.dns) (latest_http_per_target input.http)
