-- ===== src/Devices.antt =====
-- The inventory of devices (agent/internal/storage/storage.go): the tables, and the statements that
-- write and read them. A time is the text of its column, with the empty text for the zero time, and
-- a list that a column holds in JSON is the list.
pub mod Records
pub mod Rows
pub mod Kept
pub mod Lifecycle
pub mod Found
pub mod Known
pub mod Classify
pub mod Persist
pub mod Expected
pub mod Matching
pub mod Passing
pub mod Expectations
pub mod Stored
pub mod Classified
pub mod Samples
mod Tests
pub mod Risks
pub mod Select
use infracheck_appliance.Base.{
  ℕ, suc, ◌+◌, String, Bool, true, false, ◌&&◌, ◌||◌, not, Option, none, some, List, [], ◌∷◌, ◌++◌,
  map, any, keep, if◌then◌else◌, str_eq, ltb, leb, ◌==◌, take, length,
}
use infracheck_appliance.Base.Int.{ℤ, pos}
use infracheck_appliance.Base.Text.{◌<>◌, text_lt, has_prefix, contains}
use infracheck_appliance.Base.Sort.{sort_with}
use infracheck_appliance.Base.Result.{Result, ok, err, unless_fault, no_rows}

pub record Expectation : Type 0 where
  pub device_id : ℕ
  pub site_id : String
  pub authorization : String
  pub expected_category : String
  pub expected_ip : String
  pub expected_ports : List ℤ
  pub expected_services : List String
  pub expected_vlan : String
  pub expected_ap : String
  pub expected_switch : String
  pub expected_port : String
  pub maintenance_until : String
  pub updated_at : String

-- A row of `devices`.
pub record DeviceRow : Type 0 where
  pub id : ℕ
  pub site_id : String
  pub ip : String
  pub mac : String
  pub vendor : String
  pub hostname : String
  pub first_seen : String
  pub last_seen : String
  pub seen_count : ℕ
  pub source : String
  pub open_ports : String
  pub services : String
  pub notes : String
  pub monitor_missing : Bool
  pub known_at : String

-- A row of `device_intelligence`.
pub record Intelligence : Type 0 where
  pub device_id : ℕ
  pub category : String
  pub confidence : String
  pub evidence : List String
  pub risk_flags : List String
  pub classifier_version : String
  pub classified_at : String
  pub ports_observed_at : String

pub record DeviceEvent : Type 0 where
  pub timestamp : String
  pub site_id : String
  pub device_id : ℕ
  pub type : String
  pub severity : String
  pub summary : String
  pub before : String
  pub after : String

-- The Go value: a row, with what is attached to it.
pub record Device : Type 0 where
  pub row : DeviceRow
  pub new : Bool
  pub missing : Bool
  pub category : String
  pub classification_confidence : String
  pub classification_evidence : List String
  pub risk_flags : List String
  pub classification_version : String
  pub classified_at : String
  pub ports_observed_at : String
  pub expectation : Option Expectation
  pub switch_host : String
  pub switch_port : String
  pub switch_if_name : String
  pub vlan : String

-- `next_id` is the next value of the AUTOINCREMENT column; `fault` is the error that the database
-- answers to every statement, if it answers one.
pub record Inventory : Type 0 where
  pub rows : List DeviceRow
  pub intelligence : List Intelligence
  pub expectations : List Expectation
  pub events : List DeviceEvent
  pub next_id : ℕ
  pub fault : Option String

-- UPDATE ... WHERE p
unfoldable pub update_rows :
    (DeviceRow → Bool) → (DeviceRow → DeviceRow) → List DeviceRow → List DeviceRow
update_rows p f [] = []
update_rows p f (r ∷ rows) = (if p r then f r else r) ∷ update_rows p f rows

-- The key of a discovered device: its MAC, or else its address.
unfoldable pub storage_mac : DeviceRow → String
storage_mac d = if str_eq d.mac "" && not (str_eq d.ip "") then "ip:" <> d.ip else d.mac

abbrev pub has_key : String → String → DeviceRow → Bool
has_key site mac r = str_eq r.site_id site && str_eq r.mac mac

abbrev pub if_empty : String → String → String
if_empty column value = if str_eq column "" then value else column

-- The VALUES of the insertion.
abbrev pub inserted : ℕ → String → DeviceRow → DeviceRow
inserted id mac d = record d {
  id = id;
  mac = mac;
  seen_count = 1;
  open_ports = "";
  services = "";
  notes = "";
  monitor_missing = false;
  known_at = "";
}

-- The SET clause for a device that is seen again.
abbrev pub seen_again : DeviceRow → DeviceRow → DeviceRow
seen_again d r = record r {
  ip = d.ip;
  vendor = if_empty r.vendor d.vendor;
  hostname = if_empty r.hostname d.hostname;
  last_seen = d.last_seen;
  seen_count = suc r.seen_count;
  source = d.source;
}

-- One device of the loop, with the count of new ones.
unfoldable pub upsert_device : DeviceRow → Inventory × ℕ → Inventory × ℕ
upsert_device d (db, count) =
    let mac = storage_mac d in
    if str_eq mac ""
    then (db, count)
    else (if any (has_key d.site_id mac) db.rows
        then (
          record db { rows = update_rows (has_key d.site_id mac) (seen_again d) db.rows },
          count,
        )
        else (
          record db { rows = db.rows ++ inserted db.next_id mac d ∷ []; next_id = suc db.next_id },
          suc count,
        ))

unfoldable pub upsert_each_device : List DeviceRow → Inventory × ℕ → Inventory × ℕ
upsert_each_device [] state = state
upsert_each_device (d ∷ devices) state = upsert_each_device devices (upsert_device d state)

abbrev pub no_key : DeviceRow → Bool
no_key d = str_eq (storage_mac d) ""

abbrev pub all_skipped : List DeviceRow → Bool
all_skipped devices = not (any (λ d. not (no_key d)) devices)

-- Where the database answers errors, a list of devices without a key reaches no statement.
unfoldable pub upsert_devices : List DeviceRow → Inventory → Inventory × ℕ × Option String
upsert_devices devices db =
    if all_skipped devices
    then (db, 0, none)
    else unless_fault db.fault (λ e. (db, 0, some e))
        (let (after, count) = upsert_each_device devices (db, 0) in (after, count, none))

-- `scanDevices`: a key that is an address is no MAC.
abbrev pub scanned : DeviceRow → Device
scanned r = record {
  row = record r { mac = if has_prefix r.mac "ip:" then "" else r.mac };
  new = false;
  missing = false;
  category = "";
  classification_confidence = "";
  classification_evidence = [];
  risk_flags = [];
  classification_version = "";
  classified_at = "";
  ports_observed_at = "";
  expectation = none;
  switch_host = "";
  switch_port = "";
  switch_if_name = "";
  vlan = "";
}

unfoldable pub find_intelligence : ℕ → List Intelligence → Option Intelligence
find_intelligence id [] = none
find_intelligence id (i ∷ is) = if i.device_id == id then some i else find_intelligence id is

unfoldable pub find_expectation : String → ℕ → List Expectation → Option Expectation
find_expectation site id [] = none
find_expectation site id (e ∷ es) =
    if str_eq e.site_id site && e.device_id == id then some e else find_expectation site id es

abbrev pub attach_intelligence : Option Intelligence → Device → Device
attach_intelligence none d = d
attach_intelligence (some i) d = record d {
  category = i.category;
  classification_confidence = i.confidence;
  classification_evidence = i.evidence;
  risk_flags = i.risk_flags;
  classification_version = i.classifier_version;
  classified_at = i.classified_at;
  ports_observed_at = i.ports_observed_at;
}

unfoldable pub to_device : Inventory → DeviceRow → Device
to_device db r = record (attach_intelligence (find_intelligence r.id db.intelligence) (scanned r)) {
  expectation = find_expectation r.site_id r.id db.expectations;
}
