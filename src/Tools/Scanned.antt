-- ===== src/Tools/Scanned.antt =====
-- What a port scan on demand answers (agent/internal/agent/tools_api.go, with the scan of
-- agent/internal/runner/advanced.go).
use infracheck_appliance.Base.{
  ◌<◌, String, Bool, true, false, ◌&&◌, List, [], ◌∷◌, ◌++◌, ◌≡◌, refl, ap, ◌∙◌, arith, length,
  str_eq, Bool-cases, inl, inr,
}
use infracheck_appliance.Base.Int.{ℤ, eq_ℤ, ltb_ℤ}
use infracheck_appliance.Base.Text.{trim_space}
use infracheck_appliance.Base.Float.{Floats}
use infracheck_appliance.Base.Sort.{sort_with-any}
use infracheck_appliance.Base.Decimal.{itoa}
use infracheck_appliance.Base.Result.{ok, answer, unless_fault}
use infracheck_appliance.Health.Advanced.{AdvancedResult}
use infracheck_appliance.Devices.Classify.{Json}
use infracheck_appliance.Devices.Persist.{parse_port_list}
use infracheck_appliance.Field.{has_port, sanitize_ports, ports_loop}
use infracheck_appliance.Field.Throughput.{IsSanitized, sanitize_ports-IsSanitized}
use infracheck_appliance.Runner.{
  Dial, connects, join_host_port, open_ports, marshal_open, port_scan,
}
use infracheck_appliance.Tools.Asked.{IsAsked, requested-IsAsked}
use infracheck_appliance.Tools.{
  ToolPortScanRequest, ToolState, ToolWorld, ScanAnswer, named_as, or_common, tool_port_scan,
}

eq_ℤ-eq : (p v : ℤ) → eq_ℤ p v ≡ true → p ≡ v
eq_ℤ-eq p v h = ground arith

-- Whether a port of the host accepts a connection.
abbrev pub accepts : Dial → String → ℤ → Bool
accepts dial ip port = connects dial (join_host_port ip (itoa port))

has_port-open_ports :
    (dial : Dial) (ip : String) (v : ℤ) (ports : List ℤ)
    → has_port v (open_ports dial ip ports) ≡ (has_port v ports && accepts dial ip v)
unfolding open_ports
has_port-open_ports dial ip v [] = refl
has_port-open_ports dial ip v (p ∷ ports) = elim (Bool-cases (eq_ℤ p v)) [
  | inl same ↦
      ground
        (arith, same, ap (accepts dial ip) (eq_ℤ-eq p v same), has_port-open_ports dial ip v ports)
  | inr other ↦ ground (arith, other, has_port-open_ports dial ip v ports)
]

module _ (json : Json) where
  -- What encoding/json reads of what it wrote, for a list that is not empty, and of "null".
  pub record ReadsPorts : Type 0 where
    pub null : json.ports "null" ≡ ([], false)
    pub list : (p : ℤ) (ps : List ℤ) → json.ports (json.encode_ports (p ∷ ps)) ≡ (p ∷ ps, false)

  parse-marshal :
      (v : ℤ) (ps : List ℤ)
      → ReadsPorts
      → has_port v (parse_port_list json (marshal_open json ps)) ≡ has_port v ps
  unfolding parse_port_list
  parse-marshal v [] r = rw r.null (sort_with-any ltb_ℤ (λ q. eq_ℤ q v) [])
  parse-marshal v (p ∷ ps) r = rw (r.list p ps) (sort_with-any ltb_ℤ (λ q. eq_ℤ q v) (p ∷ ps))

or_common-IsSanitized : (ports : List ℤ) → IsSanitized ports → IsSanitized (or_common ports)
unfolding sanitize_ports ports_loop
or_common-IsSanitized [] h = sanitize_ports-IsSanitized (or_common [])
or_common-IsSanitized (p ∷ ps) h = h

or_common-filled : (ports : List ℤ) → 0 < length (or_common ports)
or_common-filled [] = omega arith
or_common-filled (p ∷ ps) = omega arith

named_as-details :
    {F : Type 0} (name : String) (r : AdvancedResult F) → (named_as name r).details ≡ r.details
named_as-details name r = ground arith

-- Where the ports that are stored are read as they were written, a scan of a host whose name is not
-- blank is answered: it asks for 1 to 32 ports, each from 1 to 65535 and none twice, which are ports of
-- the request, with none from 1 to 65535 of it left out unless 32 are asked for, or the common ports
-- where the request has none from 1 to 65535; the open ports that it answers are exactly those asked for
-- that accept a connection; and the result that it answers is stored, unless the database answers an
-- error, which leaves the results as they are.
pub tool_port_scan-open :
    (fl : Floats) (site : String) (w : ToolWorld fl.F) (req : ToolPortScanRequest)
    (s : ToolState fl.F)
    → ReadsPorts w.json
    → str_eq (trim_space req.host) "" ≡ false
    → (a : ScanAnswer fl.F) × ((tool_port_scan fl site w (ok req) s).1 ≡ answer a)
      × (0 < length a.ports)
      × IsSanitized a.ports
      × IsAsked req.ports a.ports
      × ((v : ℤ)
          → has_port v a.open_ports
            ≡ (has_port v a.ports && accepts w.dial (trim_space req.host) v))
      × ((tool_port_scan fl site w (ok req) s).0.advanced
          ≡ unless_fault s.inventory.fault (λ e. s.advanced) (s.advanced ++ a.result ∷ []))
unfolding tool_port_scan port_scan
tool_port_scan-open fl site w req s reads given =
    let host = trim_space req.host in
    let ports = or_common (sanitize_ports req.ports) in
    rw given (
      _,
      refl,
      or_common-filled (sanitize_ports req.ports),
      or_common-IsSanitized (sanitize_ports req.ports) (sanitize_ports-IsSanitized req.ports),
      requested-IsAsked req.ports,
      λ v.
          ap (λ text. has_port v (parse_port_list w.json text))
            (named_as-details req.name
              (port_scan fl w.now site w.duration w.json w.dial host ports))
          ∙ parse-marshal w.json v (open_ports w.dial host ports) reads
          ∙ has_port-open_ports w.dial host v ports,
      refl,
    )
