-- ===== src/Devices/Expected.antt =====
-- What is expected of devices (agent/internal/agent/expectations_api.go). strings.EqualFold is equality of the lower case.
use infracheck_appliance.Base.{
  ℕ, zero, suc, String, Bool, true, false, ◌&&◌, ◌||◌, not, Option, none, some, List, [], ◌∷◌, ◌++◌,
  map, keep, if◌then◌else◌, str_eq, length, ◌==◌,
}
use infracheck_appliance.Base.Int.{ℤ, pos, negsuc, eq_ℤ}
use infracheck_appliance.Base.Text.{◌<>◌, to_lower, contains, trim_space, first_non_empty, join}
use infracheck_appliance.Base.Decimal.{itoa, atoi}
use infracheck_appliance.Base.Result.{Result, ok, err, Response, answer, refuse, no_rows}
use infracheck_appliance.Field.{sanitize_ports}
use infracheck_appliance.Alerts.{Alert}
use infracheck_appliance.Alerts.Fingerprint.{Labels, fingerprinted}
use infracheck_appliance.Devices.{Device, Expectation, Inventory}
use infracheck_appliance.Devices.Select.{device}
use infracheck_appliance.Devices.Records.{upsert_device_expectation}
use infracheck_appliance.Devices.Classify.{Json, sort_texts, sort_ints, is_none}
use infracheck_appliance.Devices.Risks.{distinct_loop}

unfoldable pub sanitize_expected_services : List String → List String
sanitize_expected_services values =
    sort_texts (distinct_loop [] (map (λ v. to_lower (trim_space v)) values))

-- The path value `id` as a number of a device.
abbrev pub device_id_of : String → Option ℕ
device_id_of text = elim (atoi text) [
  | none ↦ none
  | some (pos zero) ↦ none
  | some (pos (suc n)) ↦ some (suc n)
  | some (negsuc n) ↦ none
]

abbrev authorization_of : String → String
authorization_of text =
    let a = to_lower (trim_space text) in if str_eq a "" then "authorized" else a

abbrev pub is_authorization : String → Bool
is_authorization a = str_eq a "authorized" || str_eq a "blocked" || str_eq a "review"

-- The expectation that the request asks for.
abbrev pub requested_expectation : String → ℕ → Expectation → Expectation
requested_expectation site id req = record req {
  device_id = id;
  site_id = site;
  authorization = authorization_of req.authorization;
  expected_ports = sanitize_ports req.expected_ports;
  expected_services = sanitize_expected_services req.expected_services;
  expected_category = to_lower (trim_space req.expected_category);
  expected_vlan = trim_space req.expected_vlan;
  expected_ap = trim_space req.expected_ap;
  expected_switch = trim_space req.expected_switch;
  expected_port = trim_space req.expected_port;
}

abbrev pub stored_answer : Inventory × Result Expectation → Inventory × Response Expectation
stored_answer (db, ok e) = (db, answer e)
stored_answer (db, err e) = (db, refuse 500 e)

abbrev pub checked :
    (String → Bool)
    → Option String
    → String
    → Expectation
    → Inventory
    → Inventory × Response Expectation
checked is_ip reread now e db =
    if not (is_authorization e.authorization)
    then (db, refuse 400 "authorization must be authorized, review, or blocked")
    else (if not (str_eq e.expected_ip "") && not (is_ip e.expected_ip)
        then (db, refuse 400 "expected_ip must be a valid IP")
        else stored_answer (upsert_device_expectation reread now e db))

abbrev pub for_device :
    (String → Bool)
    → Option String
    → String
    → String
    → ℕ
    → Result Expectation
    → Inventory
    → Result Device
    → Inventory × Response Expectation
for_device is_ip reread now site id body db (err e) =
    (db, if str_eq e no_rows then refuse 404 "device not found" else refuse 500 e)
for_device is_ip reread now site id (err e) db (ok d) = (db, refuse 400 e)
for_device is_ip reread now site id (ok req) db (ok d) =
    checked is_ip reread now (requested_expectation site id req) db

-- `is_ip` says whether `net.ParseIP` reads a text, `reread` is the error of the query that reads the
-- stored row again, if it meets one, and `body` is the decoded body of the request.
unfoldable pub update_device_expectation :
    (String → Bool)
    → Option String
    → String
    → String
    → String
    → Result Expectation
    → Inventory
    → Inventory × Response Expectation
update_device_expectation is_ip reread now site path_id body db = elim (device_id_of path_id) [
  | none ↦ (db, refuse 400 "invalid device id")
  | some id ↦ for_device is_ip reread now site id body db (device site id db)
]

-- The comparison of the sorted copies, up to the first's length.
unfoldable pub same_sorted : List ℤ → List ℤ → Bool
same_sorted [] b = true
same_sorted (a ∷ rest_a) [] = false
same_sorted (a ∷ rest_a) (b ∷ rest_b) =
    let rest = same_sorted rest_a rest_b in if eq_ℤ a b then rest else false

unfoldable pub same_ints : List ℤ → List ℤ → Bool
same_ints a b = if length a == length b then same_sorted (sort_ints a) (sort_ints b) else false

unfoldable pub ints_text : List ℤ → String
ints_text values = join (map itoa values) ","

abbrev pub equal_fold : String → String → Bool
equal_fold a b = str_eq (to_lower a) (to_lower b)

abbrev pub given : String → Bool
given text = not (str_eq text "")

abbrev pub one_if : Bool → String → List String
one_if b text = if b then text ∷ [] else []

-- The texts of `mismatches`, in their order.
unfoldable pub mismatches : List ℤ → Device → Expectation → List String
mismatches observed d e =
    one_if (str_eq e.authorization "blocked") "device is present but marked blocked"
    ++ one_if (str_eq e.authorization "review") "device authorization requires review"
    ++ one_if (given e.expected_ip && not (str_eq e.expected_ip d.row.ip))
        ("IP expected " <> e.expected_ip <> ", observed " <> d.row.ip)
    ++ one_if (given e.expected_category && not (equal_fold e.expected_category d.category)) (
        "category expected "
        <> e.expected_category
        <> ", observed "
        <> first_non_empty (d.category ∷ "unknown" ∷ []))
    ++ one_if (not (is_none e.expected_ports) && not (same_ints e.expected_ports observed))
        ("TCP ports expected " <> ints_text e.expected_ports <> ", observed " <> ints_text observed)
    ++ map (λ s. "expected service not observed: " <> s)
        (keep (λ s. not (contains (to_lower d.row.services) (to_lower s))) e.expected_services)
    ++ one_if (given e.expected_vlan && not (str_eq e.expected_vlan d.vlan)) (
        "VLAN expected "
        <> e.expected_vlan
        <> ", observed "
        <> first_non_empty (d.vlan ∷ "unknown" ∷ []))
    ++ one_if (given e.expected_switch && not (equal_fold e.expected_switch d.switch_host)) (
        "switch expected "
        <> e.expected_switch
        <> ", observed "
        <> first_non_empty (d.switch_host ∷ "unknown" ∷ []))
    ++ one_if
        (given e.expected_port
          && not (str_eq e.expected_port d.switch_port)
          && not (equal_fold e.expected_port d.switch_if_name))
        ("switch port expected "
          <> e.expected_port
          <> ", observed "
          <> first_non_empty (d.switch_if_name ∷ d.switch_port ∷ "unknown" ∷ []))

-- The alert of one device, if it has an expectation that no maintenance suspends and that it does not
-- meet. `is_after` compares the time of a column with the clock's.
module _ (json : Json) (labels : Labels) (is_after : String → String → Bool) where
  abbrev mismatch_alert : Device → String → List String → Alert
  mismatch_alert d severity found =
      let name = first_non_empty (d.row.hostname ∷ d.row.ip ∷ d.row.mac ∷ []) in
      fingerprinted labels (record {
        fingerprint = "";
        source = "expected-state";
        severity = severity;
        state = "active";
        category = "inventory";
        title = "Expected state mismatch: " <> name;
        summary = join found "; ";
        recommendation =
            "Confirm the device identity and placement, then update the approved baseline or correct the network state.";
        evidence = ("device: " <> name) ∷ found;
        labels = labels.encode (
            ("category", "expected-state")
            ∷ ("device_id", itoa (pos d.row.id))
            ∷ ("target", d.row.ip)
            ∷ []);
        annotations = "";
      })

  abbrev mismatch_of : String → Device → Option Expectation → List Alert
  mismatch_of now d none = []
  mismatch_of now d (some e) =
      let found = mismatches (json.ports d.row.open_ports).0 d e in
      if not (str_eq e.maintenance_until "") && is_after e.maintenance_until now
      then []
      else (if is_none found
          then []
          else mismatch_alert d (if str_eq e.authorization "blocked" then "critical" else "warning")
              found
            ∷ [])

  unfoldable pub expectation_alert_records : String → List Device → List Alert
  expectation_alert_records now [] = []
  expectation_alert_records now (d ∷ ds) =
      mismatch_of now d d.expectation ++ expectation_alert_records now ds
