-- ===== src/Devices/Classified.antt =====
-- What the classification of a device says (agent/internal/agent/device_intelligence.go).
use infracheck_appliance.Base.{
  ◌≤◌, String, Bool, true, false, ◌&&◌, ◌||◌, not, List, [], ◌∷◌, ◌++◌, ◌≡◌, refl, arith, any, keep,
  if◌then◌else◌, ◌≢◌, eq_iff, All, str_eq, length, either,
}
use infracheck_appliance.Base.Int.{ℤ}
use infracheck_appliance.Base.Text.{◌<>◌, contains, to_lower}
use infracheck_appliance.Field.{has_port}
use infracheck_appliance.Devices.{DeviceRow}
use infracheck_appliance.Devices.Classify.{
  is_none, has_any, contains_any, ports_evidence, text_evidence, port_set, category_of,
  printer_ports, printer_services, camera_ports, camera_services, camera_hosts, media_services,
  network_hosts, network_vendors, file_ports, file_services, server_hosts, client_ports,
  client_services, client_hosts,
}
use infracheck_appliance.Devices.Risks.{classify_device}

none-append : (xs ys : List String) → is_none (xs ++ ys) ≡ (is_none xs && is_none ys)
none-append [] ys = refl
none-append (x ∷ xs) ys = refl

none-keep : (p : ℤ → Bool) (vs : List ℤ) → is_none (keep p vs) ≡ not (any p vs)
none-keep p [] = refl
none-keep p (v ∷ vs) = ground (arith, none-keep p vs)

none-ports :
    (ports values : List ℤ) → is_none (ports_evidence ports values) ≡ not (has_any ports values)
none-ports ports values = ground (arith, none-keep (λ v. has_port v ports) values)

none-text :
    (label value : String) (terms : List String)
    → is_none (text_evidence label value terms) ≡ not (contains_any value terms)
none-text label value [] = refl
none-text label value (t ∷ terms) = ground (arith, none-text label value terms)

-- A category other than the two comes with evidence.
abbrev IsFounded : String × List String → Type 0
IsFounded (category, evidence) =
    (not (is_none evidence)
      || str_eq category "Workstation"
      || str_eq category "Unclassified device")
    ≡ true

two-founded :
    (category : String) (a b : Bool) (xs ys : List String)
    → is_none xs ≡ not a
    → is_none ys ≡ not b
    → (a || b) ≡ true
    → IsFounded (category, xs ++ ys)
two-founded category a b xs ys h k found = ground (arith, none-append xs ys, h, k, found)

three-founded :
    (category : String) (a b c : Bool) (xs ys zs : List String)
    → is_none xs ≡ not a
    → is_none ys ≡ not b
    → is_none zs ≡ not c
    → (a || b || c) ≡ true
    → IsFounded (category, xs ++ ys ++ zs)
three-founded category a b c xs ys zs h k l found =
    ground (arith, none-append (xs ++ ys) zs, none-append xs ys, h, k, l, found)

weaker :
    (k : ℤ) (ks ns : List ℤ)
    → All (λ n. has_port n ks ≡ true) ns
    → All (λ n. has_port n (k ∷ ks) ≡ true) ns
weaker k ks [] h = tt
weaker k ks (n ∷ ns) h = (ground (arith, h.0), weaker k ks ns h.1)

has_port_self : (ks : List ℤ) → All (λ n. has_port n ks ≡ true) ks
has_port_self [] = tt
has_port_self (k ∷ ks) = (ground arith, weaker k ks ks (has_port_self ks))

kept-found :
    (p : ℤ → Bool) (vs ks : List ℤ)
    → is_none (keep p vs) ≡ false
    → All (λ n. has_port n ks ≡ true) (keep p vs)
    → has_any ks vs ≡ true
kept-found p [] ks h all = ground (arith, h)
kept-found p (v ∷ vs) ks h all = ground (arith, h, all, kept-found p vs ks)

negated : (b : Bool) → not b ≡ true → b ≡ false
negated b h = ground (arith, h)

workstation-founded : (xs : List String) → IsFounded ("Workstation", xs)
workstation-founded xs = ground arith

one-founded :
    (category : String) (a : Bool) (xs : List String)
    → is_none xs ≡ not a
    → a ≡ true
    → IsFounded (category, xs)
one-founded category a xs h found = ground (arith, h, found)

branch :
    (b : Bool) (x y : String × List String)
    → (b ≡ true → IsFounded x)
    → (b ≡ false → IsFounded y)
    → IsFounded (if b then x else y)
branch true x y h k = h refl
branch false x y h k = k refl

founded-length :
    (r : String × List String)
    → r.0 ≢ "Unclassified device"
    → r.0 ≢ "Workstation"
    → IsFounded r
    → 1 ≤ length r.1
founded-length (category, []) h k f =
    ground (arith, h, k, f, eq_iff category "Workstation", eq_iff category "Unclassified device")
founded-length (category, x ∷ xs) h k f = omega arith

-- The last cases of the switch.
abbrev late_category : DeviceRow → List ℤ → List ℤ → String × List String
late_category d scanned ports =
    let source = to_lower d.source in
    if not (is_none ports)
    then ("Service host", ports_evidence ports scanned)
    else (if contains source "dhcp" || contains source "arp"
        then ("Client device", ("seen through " <> d.source) ∷ [])
        else (if not (str_eq d.vendor "")
            then ("Unclassified device", ("vendor " <> d.vendor) ∷ [])
            else ("Unclassified device", [])))

late_category-IsFounded :
    (d : DeviceRow) (scanned : List ℤ) → IsFounded (late_category d scanned (port_set scanned))
late_category-IsFounded d scanned =
    let ports = port_set scanned in
    branch (not (is_none ports)) ("Service host", ports_evidence ports scanned) _
      (λ h.
        one-founded "Service host" _ _ (none-ports ports scanned)
          (kept-found _ scanned ports (negated _ h) (has_port_self ports)))
      (λ h.
        either IsFounded (contains (to_lower d.source) "dhcp" || contains (to_lower d.source) "arp")
          ("Client device", ("seen through " <> d.source) ∷ [])
          (if not (str_eq d.vendor "")
            then ("Unclassified device", ("vendor " <> d.vendor) ∷ [])
            else ("Unclassified device", []))
          refl
          (either IsFounded (not (str_eq d.vendor ""))
            ("Unclassified device", ("vendor " <> d.vendor) ∷ []) ("Unclassified device", []) refl
            refl))

category_of-IsFounded :
    (d : DeviceRow) (scanned : List ℤ) → IsFounded (category_of d scanned (port_set scanned))
unfolding category_of
category_of-IsFounded d scanned =
    let ports = port_set scanned in
    let host = to_lower d.hostname in
    let vendor = to_lower d.vendor in
    let services = to_lower d.services in
    branch _ _ _
      (λ h.
        two-founded "Printer" _ _ _ _ (none-ports ports printer_ports)
          (none-text "printer service" services printer_services) h)
      (λ not1.
        branch _ _ _
          (λ h.
            three-founded "Camera / video" _ _ _ _ _ _ (none-ports ports camera_ports)
              (none-text "camera service" services camera_services)
              (none-text "camera hostname" host camera_hosts) h)
          (λ not2.
            branch _ _ _
              (λ h.
                one-founded "Media / IoT" _ _
                  (none-text "discovery service" services media_services) h)
              (λ not3.
                branch _ _ _
                  (λ h.
                    two-founded "Network infrastructure" _ _ _ _
                      (none-text "infrastructure hostname" host network_hosts)
                      (none-text "network vendor" vendor network_vendors) h)
                  (λ not4.
                    branch _ _ _
                      (λ h.
                        three-founded "Server / NAS" _ _ _ _ _ _ (none-ports ports file_ports)
                          (none-text "file service" services file_services)
                          (none-text "server hostname" host server_hosts) h)
                      (λ not5.
                        either IsFounded
                          (has_any ports client_ports
                            || contains_any services client_services
                            || contains_any host client_hosts)
                          (
                            "Workstation",
                            ports_evidence ports client_ports
                                ++ text_evidence "client hostname" host client_hosts,
                          )
                          (late_category d scanned ports) (workstation-founded _)
                          (late_category-IsFounded d scanned))))))

-- A device that is classified, and not as a workstation, has at least one piece of evidence.
pub classify_device-evidence :
    (d : DeviceRow) (scanned : List ℤ)
    → (classify_device d scanned).category ≢ "Unclassified device"
    → (classify_device d scanned).category ≢ "Workstation"
    → 1 ≤ length (classify_device d scanned).evidence
unfolding classify_device
classify_device-evidence d scanned classified other =
    founded-length _ classified other (category_of-IsFounded d scanned)
