-- ===== src/Health/Inventory.antt =====
-- The verdicts on new and missing devices (agent/internal/agent/agent.go).
use infracheck_appliance.Base.{
  ℕ, ◌-◌, String, List, [], ◌∷◌, ◌++◌, map, if◌then◌else◌, str_eq, ltb, take, length, ◌==◌,
}
use infracheck_appliance.Base.Int.{ℤ, pos}
use infracheck_appliance.Base.Text.{◌<>◌, join}
use infracheck_appliance.Base.Decimal.{itoa}
use infracheck_appliance.Base.Float.{Floats}
use infracheck_appliance.Devices.{Device, DeviceRow}
use infracheck_appliance.Verdict.Rules.{Verdict}
use infracheck_appliance.Health.Limits.{threshold_verdict}

abbrev number : ℕ → String
number n = itoa (pos n)

abbrev device_label : DeviceRow → String
device_label d =
    (if str_eq d.hostname "" then d.ip else d.hostname <> " / " <> d.ip)
    <> (if str_eq d.mac "" then "" else " / " <> d.mac)

-- For a positive limit.
unfoldable pub device_list_summary : List Device → ℕ → String
device_list_summary devices limit =
    if length devices == 0
    then "none"
    else join
        (map (λ (d : Device). device_label d.row) (take limit devices)
          ++ (if ltb limit (length devices)
              then ("+" <> number (length devices - limit) <> " more") ∷ []
              else []))
        ", "

abbrev described : DeviceRow → String
described d =
    (if str_eq d.hostname "" then d.ip else d.hostname <> " (" <> d.ip <> ")")
    <> (if str_eq d.mac "" then "" else " mac " <> d.mac)
    <> (if str_eq d.vendor "" then "" else " vendor " <> d.vendor)

unfoldable pub device_evidence : List Device → String → List String
device_evidence devices prefix =
    map (λ (d : Device). prefix <> ": " <> described d.row) (take 12 devices)
    ++ (if ltb 12 (length devices)
        then (prefix <> ": +" <> number (length devices - 12) <> " more devices in LAN inventory")
          ∷ []
        else [])

module _ (fl : Floats) where
  open fl use {F}

  unfoldable pub new_device_verdict : ℤ → List Device → Verdict F
  new_device_verdict now devices =
      threshold_verdict fl now "info" "inventory" "new_device_detected" "New LAN device detected"
        (number (length devices)
          <> " unreviewed new LAN device(s): "
          <> device_list_summary devices 8
          <> ".")
        (("new devices: " <> number (length devices)) ∷ device_evidence devices "new device")
        "Review the new device list and label expected devices so future inventory changes are easier to triage."

  unfoldable pub missing_device_verdict : ℤ → List Device → Verdict F
  missing_device_verdict now devices =
      threshold_verdict fl now "warning" "inventory" "known_device_missing"
        "Known LAN device missing"
        (number (length devices)
          <> " known LAN device(s) have not been seen recently: "
          <> device_list_summary devices 8
          <> ".")
        (("missing devices: " <> number (length devices))
          ∷ device_evidence devices "missing device")
        "Check whether these devices were removed intentionally, powered off, moved to another VLAN, or blocked by switching/firewall policy."
