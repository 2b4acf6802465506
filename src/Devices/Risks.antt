-- ===== src/Devices/Risks.antt =====
-- The confidence, the risks and the services of a device
-- (agent/internal/agent/device_intelligence.go). The loop over the map of risks is followed by a sort.
use infracheck_appliance.Base.{
  ℕ, String, Bool, ◌&&◌, ◌||◌, not, List, [], ◌∷◌, ◌++◌, map, any, if◌then◌else◌, str_eq, leb,
  length, ◌==◌,
}
use infracheck_appliance.Base.Int.{ℤ, pos, eq_ℤ}
use infracheck_appliance.Base.Text.{◌<>◌}
use infracheck_appliance.Base.Decimal.{itoa}
use infracheck_appliance.Field.{has_port}
use infracheck_appliance.Devices.{DeviceRow}
use infracheck_appliance.Devices.Classify.{sort_texts, DeviceClassification, port_set, category_of}

unfoldable pub confidence_of : String → List String → String
confidence_of category evidence =
    if leb 2 (length evidence)
    then "High"
    else (if length evidence == 1
          && not (str_eq category "Client device")
          && not (str_eq category "Unclassified device")
        then "Medium"
        else "Low")

abbrev pub risk_labels : List (ℕ × String)
risk_labels =
    (21, "FTP clear-text service")
    ∷ (23, "Telnet clear-text administration")
    ∷ (445, "SMB file sharing exposed")
    ∷ (3389, "RDP remote administration")
    ∷ (3306, "MySQL database service")
    ∷ (5432, "PostgreSQL database service")
    ∷ (6379, "Redis database service")
    ∷ (27017, "MongoDB database service")
    ∷ []

unfoldable pub risks_of : List ℤ → List (ℕ × String) → List String
risks_of ports [] = []
risks_of ports ((port, label) ∷ labels) =
    let rest = risks_of ports labels in
    if has_port (pos port) ports then (label <> " (TCP " <> itoa (pos port) <> ")") ∷ rest else rest

abbrev pub port_names : List (ℕ × String)
port_names =
    (21, "ftp")
    ∷ (22, "ssh")
    ∷ (23, "telnet")
    ∷ (53, "dns")
    ∷ (80, "http")
    ∷ (111, "rpcbind")
    ∷ (443, "https")
    ∷ (445, "smb")
    ∷ (515, "lpd")
    ∷ (554, "rtsp")
    ∷ (631, "ipp")
    ∷ (2049, "nfs")
    ∷ (3306, "mysql")
    ∷ (3389, "rdp")
    ∷ (5432, "postgresql")
    ∷ (6379, "redis")
    ∷ (8080, "http-alt")
    ∷ (8443, "https-alt")
    ∷ (8554, "rtsp-alt")
    ∷ (9100, "jetdirect")
    ∷ (27017, "mongodb")
    ∷ []

-- `names[port]`, the empty text where there is none
unfoldable pub name_of : ℤ → List (ℕ × String) → String
name_of port [] = ""
name_of port ((p, name) ∷ names) = if eq_ℤ (pos p) port then name else name_of port names

abbrev pub has_text : String → List String → Bool
has_text s = any (λ t. str_eq t s)

-- The loop over values that puts each one out that is not empty and not put out yet; the set `seen`
-- holds exactly what was put out.
unfoldable pub distinct_loop : List String → List String → List String
distinct_loop out [] = out
distinct_loop out (value ∷ values) =
    distinct_loop (if str_eq value "" || has_text value out then out else out ++ value ∷ []) values

unfoldable pub service_names : List ℤ → List String
service_names ports = sort_texts (distinct_loop [] (map (λ p. name_of p port_names) ports))

unfoldable pub classify_device : DeviceRow → List ℤ → DeviceClassification
classify_device d scanned =
    let ports = port_set scanned in
    let (category, evidence) = category_of d scanned ports in
    record {
      category = category;
      confidence = confidence_of category evidence;
      evidence = evidence;
      risk_flags = sort_texts (risks_of ports risk_labels);
      services = service_names scanned;
    }
