-- ===== src/Probe/Route.antt =====
-- The analysis of a path (agent/internal/runner/field.go).
use infracheck_appliance.Base.{
  ℕ, zero, suc, ◌*◌, String, Bool, ◌&&◌, not, Option, none, some, List, [], ◌∷◌, ◌++◌, map,
  if◌then◌else◌, str_eq,
}
use infracheck_appliance.Base.Int.{ℤ, pos, ltb_ℤ, leb_ℤ, eq_ℤ, pos_part}
use infracheck_appliance.Base.Text.{trim_space, to_lower, contains, text_lt}
use infracheck_appliance.Base.Decimal.{itoa, atoi}
use infracheck_appliance.Base.Lines.{split, fields, trim}
use infracheck_appliance.Base.Sort.{sort_with}
use infracheck_appliance.Probe.{contains_text}
use infracheck_appliance.Probe.Dhcp.{is_bracket}

pub record PathRequest : Type 0 where
  pub name : String
  pub host : String
  pub protocol : String
  pub port : ℤ
  pub samples : ℤ
  pub max_hops : ℤ
  pub dscp : ℤ
  pub discover_mtu : Bool

pub record PathHop (F : Type 0) : Type 0 where
  pub number : ℤ
  pub addresses : List String
  pub rtt_ms : List F
  pub timeouts : ℕ

pub record PathDetails (F : Type 0) : Type 0 where
  pub protocol : String
  pub port : ℤ
  pub dscp : ℤ
  pub samples : ℤ
  pub hops : List (PathHop F)
  pub path_hash : String
  pub mtu_raw : String
  pub raw : List String

abbrev within : ℤ → ℤ → ℤ → ℤ → ℤ
within low high default n = if ltb_ℤ n low then default else (if ltb_ℤ high n then high else n)

-- The request with its defaults and limits
unfoldable pub normalized : PathRequest → PathRequest
normalized r =
    let protocol = to_lower (trim_space r.protocol) in
    record r {
      protocol = if str_eq protocol "" then "icmp" else protocol;
      samples = within (pos 1) (pos 10) (pos 3) r.samples;
      max_hops = within (pos 1) (pos 64) (pos 16) r.max_hops;
    }

abbrev port_args : ℤ → List String
port_args port = if ltb_ℤ (pos 0) port then "-p" ∷ itoa port ∷ [] else []

abbrev protocol_args : PathRequest → List String
protocol_args r =
    if str_eq r.protocol "tcp"
    then "-T" ∷ port_args r.port
    else (if str_eq r.protocol "udp" then "-U" ∷ port_args r.port else "-I" ∷ [])

-- `dscp << 2`, for a DSCP from 1 to 63
abbrev dscp_args : ℤ → List String
dscp_args dscp =
    if ltb_ℤ (pos 0) dscp && leb_ℤ dscp (pos 63)
    then "-t" ∷ itoa (pos (pos_part dscp * 4)) ∷ []
    else []

unfoldable pub trace_args : PathRequest → List String
trace_args r =
    ("-n" ∷ "-m" ∷ itoa r.max_hops ∷ "-q" ∷ "1" ∷ "-w" ∷ "1" ∷ [])
    ++ protocol_args r
    ++ dscp_args r.dscp
    ++ r.host ∷ []

-- What a run of traceroute printed, and the error of the context where it failed after its end.
pub record TraceRun : Type 0 where
  pub output : String
  pub ended : Option String

-- The groups that the expressions for times and addresses find in a line.
pub record LineReader (F : Type 0) : Type 0 where
  pub rtts : String → List F
  pub addresses : String → List String
  pub is_ip : String → Bool

-- What the loop over the samples has: the hops, the outputs, and the error where it ended early.
pub record Traced (F : Type 0) : Type 0 where
  pub hops : List (PathHop F)
  pub raw : List String
  pub error : String

abbrev pub no_trace : {F : Type 0} → Traced F
no_trace = record { hops = []; raw = []; error = "" }

module _ {F : Type 0} (reader : LineReader F) where
  abbrev pub read_address : List String → String → List String
  read_address out m =
      let value = trim is_bracket m in
      if reader.is_ip value && not (contains_text out value) then out ++ value ∷ [] else out

  unfoldable pub read_addresses : List String → List String → List String
  read_addresses out [] = out
  read_addresses out (m ∷ ms) = read_addresses (read_address out m) ms

  abbrev pub read_hop : String → PathHop F → PathHop F
  read_hop line hop = record hop {
    timeouts = if contains line "*" then suc hop.timeouts else hop.timeouts;
    rtt_ms = hop.rtt_ms ++ reader.rtts line;
    addresses = read_addresses hop.addresses (reader.addresses line);
  }

  abbrev pub new_hop : ℤ → PathHop F
  new_hop number = record { number = number; addresses = []; rtt_ms = []; timeouts = 0 }

  -- The hop of the number, which is put in where there is none
  unfoldable pub merge_hop : ℤ → String → List (PathHop F) → List (PathHop F)
  merge_hop number line [] = read_hop line (new_hop number) ∷ []
  merge_hop number line (h ∷ hops) =
      if eq_ℤ h.number number then read_hop line h ∷ hops else h ∷ merge_hop number line hops

  abbrev pub at_number : Option ℤ → String → List (PathHop F) → List (PathHop F)
  at_number none line hops = hops
  at_number (some number) line hops = merge_hop number line hops

  abbrev pub merge_fields : List String → String → List (PathHop F) → List (PathHop F)
  merge_fields [] line hops = hops
  merge_fields (a ∷ []) line hops = hops
  merge_fields (a ∷ b ∷ rest) line hops = at_number (atoi a) line hops

  unfoldable pub merge_lines : List String → List (PathHop F) → List (PathHop F)
  merge_lines [] hops = hops
  merge_lines (line ∷ lines) hops =
      merge_lines lines (merge_fields (fields (trim_space line)) line hops)

  unfoldable pub merge_trace_output : String → List (PathHop F) → List (PathHop F)
  merge_trace_output raw hops = merge_lines (split b'\n' raw) hops

  -- The runs of traceroute, one for each sample that is left
  unfoldable pub trace_samples : ℕ → (ℕ → TraceRun) → ℕ → Traced F → Traced F
  trace_samples zero run sample t = t
  trace_samples (suc left) run sample t =
      let raw = trim_space (run sample).output in
      let seen : Traced F = record t { raw = t.raw ++ raw ∷ [] } in
      elim (run sample).ended [
        | some e ↦ record seen { error = e }
        | none ↦
            trace_samples left run (suc sample)
              (record seen { hops = merge_trace_output raw t.hops })
      ]

  unfoldable pub sorted_hops : List (PathHop F) → List (PathHop F)
  sorted_hops hops =
      map (λ (h : PathHop F). record h { addresses = sort_with text_lt h.addresses })
        (sort_with (λ (g : PathHop F) h. ltb_ℤ g.number h.number) hops)
