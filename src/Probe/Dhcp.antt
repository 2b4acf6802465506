-- ===== src/Probe/Dhcp.antt =====
-- The check of the DHCP servers (agent/internal/runner/field.go).
use infracheck_appliance.Base.{
  String, Bool, false, ◌&&◌, ◌||◌, not, Option, none, some, ◌⊎◌, inl, inr, List, [], ◌∷◌, ◌++◌,
  if◌then◌else◌, str_eq, ltb, length, ◌==◌,
}
use infracheck_appliance.Base.Int.{ℤ, pos}
use infracheck_appliance.Base.Text.{◌<>◌, trim_space, contains, text_lt}
use infracheck_appliance.Base.Decimal.{itoa}
use infracheck_appliance.Base.Lines.{split, fields, trim, cut}
use infracheck_appliance.Base.Sort.{sort_with}
use infracheck_appliance.Base.Float.{Floats}
use infracheck_appliance.Health.Advanced.{AdvancedResult}
use infracheck_appliance.Probe.{base_advanced, contains_text}
use Prim.Native.Char.{Char, code}

abbrev pub is_bracket : Char → Bool
is_bracket c = let n = code c in n == b'(' || (n == b')' || n == b' ')

-- strings.ReplaceAll(s, ",", " ")
unfoldable pub commas_to_spaces : String → String
commas_to_spaces String.[] = ""
commas_to_spaces (String.◌∷◌ c s) =
    String.◌∷◌ (if code c == b',' then " " else c) (commas_to_spaces s)

-- The addresses among the words that are not in the list yet
unfoldable pub add_values : (String → Bool) → List String → List String → List String
add_values is_ip out [] = out
add_values is_ip out (w ∷ words) =
    let value = trim is_bracket w in
    add_values is_ip
      (if is_ip value && not (contains_text out value) then out ++ value ∷ [] else out) words

abbrev pub after_colon : Option (String × String) → List String
after_colon none = []
after_colon (some (label, values)) = fields (commas_to_spaces values)

unfoldable pub dhcp_lines : (String → Bool) → String → List String → List String → List String
dhcp_lines is_ip label out [] = out
dhcp_lines is_ip label out (line ∷ lines) =
    dhcp_lines is_ip label
      (if contains line label then add_values is_ip out (after_colon (cut line ":")) else out) lines

unfoldable pub extract_dhcp_values : (String → Bool) → String → String → List String
extract_dhcp_values is_ip raw label =
    sort_with text_lt (dhcp_lines is_ip label [] (split b'\n' raw))

pub record DhcpIntegrityDetails : Type 0 where
  pub servers : List String
  pub routers : List String
  pub dns_servers : List String
  pub raw : String

unfoldable pub dhcp_details : (String → Bool) → String → DhcpIntegrityDetails
dhcp_details is_ip raw = record {
  servers = extract_dhcp_values is_ip raw "Server Identifier";
  routers = extract_dhcp_values is_ip raw "Router";
  dns_servers = extract_dhcp_values is_ip raw "Domain Name Server";
  raw = trim_space raw;
}

abbrev pub first_text : List String → String
first_text [] = ""
first_text (s ∷ ss) = s

module _ (fl : Floats) where
  open fl use {F}

  -- What a finished run of nmap says: the error of the run, and the servers that answered.
  abbrev pub judged : String → Option String → List String → AdvancedResult F → AdvancedResult F
  judged expected (some e) servers r = record r {
    severity = "warning";
    error = e;
    summary = "DHCP discovery failed";
    success = false;
  }
  judged expected none servers r =
      let seen = record r { success = ltb 0 (length servers) } in
      if ltb 1 (length servers)
      then record seen {
        success = false;
        severity = "warning";
        error = "multiple DHCP servers responded";
      }
      else (if not (str_eq expected "")
            && (ltb 0 (length servers) && not (str_eq (first_text servers) expected))
          then record seen {
            success = false;
            severity = "warning";
            error = "unexpected DHCP server " <> first_text servers;
          }
          else seen)

  -- `nmap` is the error of its absence, or the error of its run and what it printed.
  unfoldable pub dhcp_integrity :
      (String → Bool)
      → (DhcpIntegrityDetails → String)
      → ℤ
      → F
      → String
      → String
      → String ⊎ (Option String × String)
      → AdvancedResult F
  dhcp_integrity is_ip encode now duration site expected (inl absent) =
      record (base_advanced fl now site "dhcp_integrity" "DHCP integrity" "local broadcast") {
        severity = "warning";
        summary = "Nmap not installed";
        error = absent;
      }
  dhcp_integrity is_ip encode now duration site expected (inr (failed, raw)) =
      let details = dhcp_details is_ip raw in
      judged expected failed details.servers
        (record (base_advanced fl now site "dhcp_integrity" "DHCP integrity" "local broadcast") {
          details = encode details;
          duration_ms = duration;
          summary = "DHCP offers from " <> itoa (pos (length details.servers)) <> " server(s)";
        })
