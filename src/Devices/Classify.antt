-- ===== src/Devices/Classify.antt =====
-- What a device is taken for (agent/internal/agent/device_intelligence.go).
use infracheck_appliance.Base.{
  ℕ, String, Bool, true, false, ◌&&◌, ◌||◌, not, List, [], ◌∷◌, ◌++◌, map, any, keep, if◌then◌else◌,
  str_eq,
}
use infracheck_appliance.Base.Int.{ℤ, pos, leb_ℤ, ltb_ℤ}
use infracheck_appliance.Base.Text.{◌<>◌, text_lt, to_lower, contains, join}
use infracheck_appliance.Base.Decimal.{itoa}
use infracheck_appliance.Base.Sort.{sort_with}
use infracheck_appliance.Field.{has_port}
use infracheck_appliance.Devices.{DeviceRow}

-- `json.Unmarshal` into a list, which also answers what it stored before an error, with whether there
-- was one, and `json.Marshal` of a list.
pub record Json : Type 0 where
  pub texts : String → List String × Bool
  pub ports : String → List ℤ × Bool
  pub encode_texts : List String → String
  pub encode_ports : List ℤ → String

abbrev pub sort_texts : List String → List String
sort_texts = sort_with text_lt

abbrev pub sort_ints : List ℤ → List ℤ
sort_ints = sort_with ltb_ℤ

pub record DeviceClassification : Type 0 where
  pub category : String
  pub confidence : String
  pub evidence : List String
  pub risk_flags : List String
  pub services : List String

abbrev pub is_none {ℓ} : {A : Type ℓ} → List A → Bool
is_none [] = true
is_none (x ∷ xs) = false

abbrev pub port_set : List ℤ → List ℤ
port_set = keep (λ p. ltb_ℤ (pos 0) p && leb_ℤ p (pos 65535))

abbrev pub has_any : List ℤ → List ℤ → Bool
has_any ports = any (λ v. has_port v ports)

abbrev pub contains_any : String → List String → Bool
contains_any value = any (contains value)

-- `addPorts` and `addText`
abbrev pub ports_evidence : List ℤ → List ℤ → List String
ports_evidence ports values =
    let found = keep (λ v. has_port v ports) values in
    if is_none found then [] else ("ports " <> join (map itoa found) ",") ∷ []

abbrev pub text_evidence : String → String → List String → List String
text_evidence label value [] = []
text_evidence label value (term ∷ terms) =
    let rest = text_evidence label value terms in
    if contains value term then (label <> " (" <> term <> ")") ∷ [] else rest

abbrev ints : List ℕ → List ℤ
ints = map pos

abbrev pub printer_ports : List ℤ
printer_ports = ints (631 ∷ 9100 ∷ 515 ∷ [])

abbrev pub printer_services : List String
printer_services = "ipp" ∷ "printer" ∷ "airprint" ∷ []

abbrev pub camera_ports : List ℤ
camera_ports = ints (554 ∷ 8554 ∷ [])

abbrev pub camera_services : List String
camera_services = "rtsp" ∷ "onvif" ∷ []

abbrev pub camera_hosts : List String
camera_hosts = "camera" ∷ "cam-" ∷ "nvr" ∷ "dvr" ∷ []

abbrev pub media_services : List String
media_services =
    "airplay" ∷ "googlecast" ∷ "chromecast" ∷ "roku" ∷ "homekit" ∷ "sonos" ∷ "upnp" ∷ []

abbrev pub network_hosts : List String
network_hosts =
    "router" ∷ "gateway" ∷ "switch" ∷ "firewall" ∷ "accesspoint" ∷ "access-point" ∷ "ap-" ∷ "-ap"
    ∷ []

abbrev pub network_vendors : List String
network_vendors =
    "ubiquiti" ∷ "cisco" ∷ "meraki" ∷ "aruba" ∷ "mikrotik" ∷ "fortinet" ∷ "juniper" ∷ []

abbrev pub file_ports : List ℤ
file_ports = ints (445 ∷ 2049 ∷ 111 ∷ [])

abbrev pub file_services : List String
file_services = "smb" ∷ "nfs" ∷ "nas" ∷ []

abbrev pub server_hosts : List String
server_hosts = "nas" ∷ "server" ∷ "synology" ∷ "qnap" ∷ []

abbrev pub client_ports : List ℤ
client_ports = ints (3389 ∷ [])

abbrev pub client_services : List String
client_services = "workstation" ∷ "rdp" ∷ []

abbrev pub client_hosts : List String
client_hosts = "desktop" ∷ "laptop" ∷ "macbook" ∷ "workstation" ∷ []

-- The switch: the category, with its evidence. `ports` is the set, `scanned` the argument.
unfoldable pub category_of : DeviceRow → List ℤ → List ℤ → String × List String
category_of d scanned ports =
    let host = to_lower d.hostname in
    let vendor = to_lower d.vendor in
    let services = to_lower d.services in
    let source = to_lower d.source in
    if has_any ports printer_ports || contains_any services printer_services
    then (
      "Printer",
      ports_evidence ports printer_ports
          ++ text_evidence "printer service" services printer_services,
    )
    else (if has_any ports camera_ports
          || contains_any services camera_services
          || contains_any host camera_hosts
        then (
          "Camera / video",
          ports_evidence ports camera_ports
              ++ text_evidence "camera service" services camera_services
              ++ text_evidence "camera hostname" host camera_hosts,
        )
        else (if contains_any services media_services
            then ("Media / IoT", text_evidence "discovery service" services media_services)
            else (if contains_any host network_hosts || contains_any vendor network_vendors
                then (
                  "Network infrastructure",
                  text_evidence "infrastructure hostname" host network_hosts
                      ++ text_evidence "network vendor" vendor network_vendors,
                )
                else (if has_any ports file_ports
                      || contains_any services file_services
                      || contains_any host server_hosts
                    then (
                      "Server / NAS",
                      ports_evidence ports file_ports
                          ++ text_evidence "file service" services file_services
                          ++ text_evidence "server hostname" host server_hosts,
                    )
                    else (if has_any ports client_ports
                          || contains_any services client_services
                          || contains_any host client_hosts
                        then (
                          "Workstation",
                          ports_evidence ports client_ports
                              ++ text_evidence "client hostname" host client_hosts,
                        )
                        else (if not (is_none ports)
                            then ("Service host", ports_evidence ports scanned)
                            else (if contains source "dhcp" || contains source "arp"
                                then ("Client device", ("seen through " <> d.source) ∷ [])
                                else (if not (str_eq d.vendor "")
                                    then ("Unclassified device", ("vendor " <> d.vendor) ∷ [])
                                    else ("Unclassified device", [])))))))))
