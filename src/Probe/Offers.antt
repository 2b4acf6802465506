-- ===== src/Probe/Offers.antt =====
-- When the check of the DHCP servers succeeds (agent/internal/runner/field.go).
use infracheck_appliance.Base.{
  String, Bool, true, ◌&&◌, ◌||◌, not, Option, none, some, ◌↔◌, inl, inr, List, [], ◌∷◌, ◌++◌, ◌≡◌,
  refl, arith, if◌then◌else◌, str_eq, either, Bool-cases, All, All-append,
}
use infracheck_appliance.Base.Int.{ℤ}
use infracheck_appliance.Base.Text.{text_lt, contains}
use infracheck_appliance.Base.Lines.{trim, cut, split}
use infracheck_appliance.Base.Sort.{sort_with-All}
use infracheck_appliance.Base.Float.{Floats}
use infracheck_appliance.Health.Advanced.{AdvancedResult}
use infracheck_appliance.Probe.{contains_text}
use infracheck_appliance.Probe.Dhcp.{
  DhcpIntegrityDetails, judged, is_bracket, after_colon, add_values, dhcp_lines,
  extract_dhcp_values, dhcp_details, dhcp_integrity,
}

module _ (is_ip : String → Bool) where
  abbrev pub IsRead : String → Type 0
  IsRead s = is_ip s ≡ true

  add_values-IsRead :
      (out words : List String) → All IsRead out → All IsRead (add_values is_ip out words)
  unfolding add_values
  add_values-IsRead out [] h = h
  add_values-IsRead out (w ∷ words) h =
      elim (Bool-cases (is_ip (trim is_bracket w) && not (contains_text out (trim is_bracket w)))) [
        | inl new ↦ rw new (
            add_values-IsRead (out ++ trim is_bracket w ∷ []) words
              (All-append IsRead out (trim is_bracket w ∷ []) h (ground (arith, new), tt)))
        | inr old ↦ rw old (add_values-IsRead out words h)
      ]

  dhcp_lines-IsRead :
      (label : String) (out lines : List String)
      → All IsRead out
      → All IsRead (dhcp_lines is_ip label out lines)
  unfolding dhcp_lines
  dhcp_lines-IsRead label out [] h = h
  dhcp_lines-IsRead label out (l ∷ lines) h =
      let added = add_values is_ip out (after_colon (cut l ":")) in
      dhcp_lines-IsRead label (if contains l label then added else out) lines (
        either (All IsRead) (contains l label) added out
          (add_values-IsRead out (after_colon (cut l ":")) h) h)

  extract_dhcp_values-IsRead :
      (raw label : String) → All IsRead (extract_dhcp_values is_ip raw label)
  unfolding extract_dhcp_values
  extract_dhcp_values-IsRead raw label =
      sort_with-All text_lt IsRead _ (dhcp_lines-IsRead label [] (split b'\n' raw) tt)

-- The run did not fail, exactly one server answered, with an address that the parser reads, and it is
-- the expected one, where one is named.
pub record IsOffered (is_ip : String → Bool) (expected : String) (failed : Option String)
    (servers : List String) : Type 0 where
  pub works : failed ≡ none
  pub server : String
  pub only : servers ≡ server ∷ []
  pub read : is_ip server ≡ true
  pub named : (str_eq expected "" || str_eq server expected) ≡ true

module _ (fl : Floats) (is_ip : String → Bool) (encode : DhcpIntegrityDetails → String) (now : ℤ)
    (duration : fl.F) (site expected : String) where
  judged-success :
      (failed : Option String) (servers : List String) (r : AdvancedResult fl.F)
      → All (IsRead is_ip) servers
      → ((judged fl expected failed servers r).success ≡ true)
        ↔ IsOffered is_ip expected failed servers
  judged-success (some e) servers r h = (λ s. absurd (cc), λ o. absurd (ground (arith, o.works)))
  judged-success none [] r h =
      (λ s. absurd (ground (arith, s)), λ o. absurd (ground (arith, o.only)))
  judged-success none (a ∷ []) r h = (
    λ s. record { works = refl; server = a; only = refl; read = h.0; named = ground (arith, s) },
    λ o. ground (arith, o.only, o.named),
  )
  judged-success none (a ∷ b ∷ rest) r h =
      (λ s. absurd (ground (arith, s)), λ o. absurd (ground (arith, o.only)))

  -- The check of DHCP, where nmap is installed, succeeds exactly if nmap did not fail, exactly one server
  -- answered, its address is one that the parser reads, and it is the expected one, where one is named.
  pub dhcp_integrity-success :
      (failed : Option String) (raw : String)
      → ((dhcp_integrity fl is_ip encode now duration site expected (inr (failed, raw))).success
          ≡ true)
        ↔ IsOffered is_ip expected failed (dhcp_details is_ip raw).servers
  unfolding dhcp_integrity dhcp_details
  dhcp_integrity-success failed raw =
      judged-success failed (extract_dhcp_values is_ip raw "Server Identifier") _
        (extract_dhcp_values-IsRead is_ip raw "Server Identifier")
