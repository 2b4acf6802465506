-- ===== src/Probe/Path.antt =====
-- What the analysis of a path answers (agent/internal/runner/field.go).
use infracheck_appliance.Base.{
  ℕ, String, Option, none, some, List, [], ◌∷◌, map, if◌then◌else◌, str_eq, ltb, length, ◌⊎◌, inl,
  inr,
}
use infracheck_appliance.Base.Int.{ℤ, pos, pos_part}
use infracheck_appliance.Base.Text.{◌<>◌, trim_space, join}
use infracheck_appliance.Base.Decimal.{itoa}
use infracheck_appliance.Base.Float.{Floats}
use infracheck_appliance.Health.Advanced.{AdvancedResult}
use infracheck_appliance.Probe.{base_advanced}
use infracheck_appliance.Probe.Route.{
  PathRequest, PathHop, PathDetails, normalized, trace_args, TraceRun, LineReader, Traced, no_trace,
  trace_samples, sorted_hops,
}

-- What the analysis meets: whether the name is resolved, traceroute with its arguments, or the error of
-- its absence, and what tracepath prints, where it is installed.
pub record PathWorld (F : Type 0) : Type 0 where
  pub lookup_host : String → Option String
  pub traceroute : String ⊎ (List String → ℕ → TraceRun)
  pub tracepath : Option (List String → String)
  pub reader : LineReader F
  pub sha256_prefix : String → String
  pub encode : PathDetails F → String
  pub to_upper : String → String

module _ (fl : Floats) where
  open fl use {F}

  abbrev unresolved : PathWorld F → String → Option String
  unresolved w host = if w.reader.is_ip host then none else w.lookup_host host

  abbrev pub mtu_of : PathWorld F → PathRequest → Option (List String → String) → String
  mtu_of w r none = ""
  mtu_of w r (some tracepath) =
      if r.discover_mtu
      then trim_space (tracepath ("-n" ∷ "-m" ∷ itoa r.max_hops ∷ r.host ∷ []))
      else ""

  unfoldable pub path_details : PathWorld F → PathRequest → Traced F → PathDetails F
  path_details w r t =
      let hops = sorted_hops w.reader t.hops in
      record {
        protocol = r.protocol;
        port = r.port;
        dscp = r.dscp;
        samples = r.samples;
        hops = hops;
        path_hash = w.sha256_prefix (join (map (λ (h : PathHop F). join h.addresses ",") hops) "|");
        mtu_raw = mtu_of w r w.tracepath;
        raw = t.raw;
      }

  abbrev path_summary : PathWorld F → PathDetails F → String
  path_summary w d =
      w.to_upper d.protocol
      <> " path: "
      <> itoa (pos (length d.hops))
      <> " hop(s), "
      <> itoa d.samples
      <> " sample(s), hash "
      <> d.path_hash

  abbrev traced : PathWorld F → F → PathRequest → Traced F → AdvancedResult F → AdvancedResult F
  traced w duration r t result =
      let d = path_details w r t in
      let success = ltb 0 (length d.hops) in
      let done : AdvancedResult F = record result {
        details = w.encode d;
        duration_ms = duration;
        success = success;
        summary = path_summary w d;
        error = t.error;
      } in
      if success then done else record done {
        severity = "warning";
        summary = "Path analysis returned no hops";
        error = if str_eq t.error "" then "no traceroute hops returned" else t.error;
      }

  abbrev with_tool :
      PathWorld F
      → F
      → PathRequest
      → String ⊎ (List String → ℕ → TraceRun)
      → AdvancedResult F
      → AdvancedResult F
  with_tool w duration r (inl absent) result = record result {
    severity = "warning";
    summary = "Traceroute tool not installed";
    error = absent;
  }
  with_tool w duration r (inr tool) result =
      traced w duration r
        (trace_samples w.reader (pos_part r.samples) (tool (trace_args r)) 0 no_trace) result

  abbrev resolved :
      PathWorld F → F → PathRequest → Option String → AdvancedResult F → AdvancedResult F
  resolved w duration r (some e) result = record result {
    severity = "warning";
    summary = "Path target could not be resolved";
    error = e;
  }
  resolved w duration r none result = with_tool w duration (normalized r) w.traceroute result

  unfoldable pub progressive_path : PathWorld F → ℤ → F → String → PathRequest → AdvancedResult F
  progressive_path w now duration site r =
      let name = if str_eq r.name "" then r.host else r.name in
      resolved w duration r (unresolved w r.host)
        (base_advanced fl now site "progressive_path" name r.host)
