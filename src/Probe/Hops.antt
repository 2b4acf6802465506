-- ===== src/Probe/Hops.antt =====
-- The hops of a path, and the end of the loop over the samples (agent/internal/runner/field.go).
use infracheck_appliance.Base.{
  ℕ, zero, suc, ◌+◌, ◌≤◌, String, Bool, false, ◌&&◌, ◌||◌, not, Option, none, some, List, [], ◌∷◌,
  ◌++◌, ◌≡◌, refl, ◌∙◌, arith, any, str_eq, eq_iff, length, length-append, Bool-cases, Option-cases,
  inl, inr, All, either,
}
use infracheck_appliance.Base.Int.{ℤ, pos, eq_ℤ, pos_part, ◌≤ℤ◌}
use infracheck_appliance.Base.Text.{trim_space}
use infracheck_appliance.Base.Decimal.{atoi}
use infracheck_appliance.Base.Lines.{split, fields, trim}
use infracheck_appliance.Base.Distinct.{DistinctBy, DistinctBy-snoc}
use infracheck_appliance.Probe.{contains_text}
use infracheck_appliance.Probe.Dhcp.{is_bracket}
use infracheck_appliance.Probe.Route.{
  PathRequest, PathHop, TraceRun, LineReader, Traced, normalized, read_addresses, read_hop,
  merge_hop, merge_lines, merge_trace_output, trace_samples, no_trace, merge_fields, at_number,
}

-- A normalized request asks for 1 to 10 samples and for 1 to 64 hops.
pub record IsLimited (r : PathRequest) : Type 0 where
  pub few_samples : pos 1 ≤ℤ r.samples
  pub many_samples : r.samples ≤ℤ pos 10
  pub few_hops : pos 1 ≤ℤ r.max_hops
  pub many_hops : r.max_hops ≤ℤ pos 64

normalized-IsLimited : (r : PathRequest) → IsLimited (normalized r)
unfolding normalized
normalized-IsLimited r = record {
  few_samples = ground arith;
  many_samples = ground arith;
  few_hops = ground arith;
  many_hops = ground arith;
}

module _ {F : Type 0} (reader : LineReader F) where
  abbrev same_number : PathHop F → PathHop F → Bool
  same_number g h = eq_ℤ g.number h.number

  abbrev DistinctHops : List (PathHop F) → Type 0
  DistinctHops = DistinctBy same_number

  abbrev OneEach : PathHop F → Type 0
  OneEach h = DistinctBy (λ (s : String) t. str_eq t s) h.addresses

  -- No number and, within a hop, no address stands twice.
  pub record IsPath (hops : List (PathHop F)) : Type 0 where
    pub numbers : DistinctHops hops
    pub addresses : All OneEach hops

  merge_hop-any :
      (g : PathHop F) (number : ℤ) (line : String) (hops : List (PathHop F))
      → any (same_number g) (merge_hop reader number line hops)
        ≡ (eq_ℤ g.number number || any (same_number g) hops)
  unfolding merge_hop
  merge_hop-any g number line [] = refl
  merge_hop-any g number line (h ∷ hops) = ground (arith, merge_hop-any g number line hops)

  merge_hop-numbers :
      (number : ℤ) (line : String) (hops : List (PathHop F))
      → DistinctHops hops
      → DistinctHops (merge_hop reader number line hops)
  unfolding merge_hop
  merge_hop-numbers number line [] d = (refl, tt)
  merge_hop-numbers number line (h ∷ hops) d = elim (Bool-cases (eq_ℤ h.number number)) [
    | inl old ↦ rw old (d.0, d.1)
    | inr new ↦ rw new (
      merge_hop-any h number line hops ∙ ground (arith, new, d.0),
      merge_hop-numbers number line hops d.1,
    )
  ]

  others :
      (s : String) (out : List String)
      → contains_text out s ≡ false
      → All (λ x. str_eq s x ≡ false) out
  others s [] h = tt
  others s (x ∷ out) h =
      (ground (arith, h, eq_iff x s, eq_iff s x), others s out (ground (arith, h)))

  read_addresses-Distinct :
      (out ms : List String)
      → DistinctBy (λ (s : String) t. str_eq t s) out
      → DistinctBy (λ (s : String) t. str_eq t s) (read_addresses reader out ms)
  unfolding read_addresses
  read_addresses-Distinct out [] d = d
  read_addresses-Distinct out (m ∷ ms) d =
      let value = trim is_bracket m in
      elim (Bool-cases (reader.is_ip value && not (contains_text out value))) [
        | inl new ↦ rw new (
            read_addresses-Distinct (out ++ value ∷ []) ms (
              DistinctBy-snoc (λ (a : String) b. str_eq b a) out value d
                (others value out (ground (arith, new)))))
        | inr old ↦ rw old (read_addresses-Distinct out ms d)
      ]

  merge_hop-addresses :
      (number : ℤ) (line : String) (hops : List (PathHop F))
      → All OneEach hops
      → All OneEach (merge_hop reader number line hops)
  unfolding merge_hop
  merge_hop-addresses number line [] h = (read_addresses-Distinct [] (reader.addresses line) tt, tt)
  merge_hop-addresses number line (g ∷ hops) h =
      either (All OneEach) (eq_ℤ g.number number) (read_hop reader line g ∷ hops)
        (g ∷ merge_hop reader number line hops)
        (read_addresses-Distinct g.addresses (reader.addresses line) h.0, h.1)
        (h.0, merge_hop-addresses number line hops h.1)

  at_number-IsPath :
      (o : Option ℤ) (line : String) (hops : List (PathHop F))
      → IsPath hops
      → IsPath (at_number reader o line hops)
  at_number-IsPath none line hops h = h
  at_number-IsPath (some number) line hops h = record {
    numbers = merge_hop-numbers number line hops h.numbers;
    addresses = merge_hop-addresses number line hops h.addresses;
  }

  merge_fields-IsPath :
      (words : List String) (line : String) (hops : List (PathHop F))
      → IsPath hops
      → IsPath (merge_fields reader words line hops)
  merge_fields-IsPath [] line hops h = h
  merge_fields-IsPath (a ∷ []) line hops h = h
  merge_fields-IsPath (a ∷ b ∷ rest) line hops h = at_number-IsPath (atoi a) line hops h

  merge_lines-IsPath :
      (lines : List String) (hops : List (PathHop F))
      → IsPath hops
      → IsPath (merge_lines reader lines hops)
  unfolding merge_lines
  merge_lines-IsPath [] hops h = h
  merge_lines-IsPath (line ∷ lines) hops h =
      merge_lines-IsPath lines (merge_fields reader (fields (trim_space line)) line hops)
        (merge_fields-IsPath (fields (trim_space line)) line hops h)

  -- What the loop over the samples leaves
  pub record IsTraced (started left : ℕ) (t : Traced F) : Type 0 where
    pub path : IsPath t.hops
    pub runs : length t.raw ≤ started + left

  trace_samples-IsTraced :
      (left : ℕ) (run : ℕ → TraceRun) (sample : ℕ) (t : Traced F)
      → IsPath t.hops
      → IsTraced (length t.raw) left (trace_samples reader left run sample t)
  unfolding trace_samples merge_trace_output
  trace_samples-IsTraced zero run sample t h = record { path = h; runs = omega arith }
  trace_samples-IsTraced (suc left) run sample t h =
      let raw = trim_space (run sample).output in
      let longer = length-append t.raw (raw ∷ []) in
      elim (Option-cases (run sample).ended) [
        | inl going ↦
            let next : Traced F = record t {
              raw = t.raw ++ raw ∷ [];
              hops = merge_lines reader (split b'\n' raw) t.hops;
            } in
            let rest =
              trace_samples-IsTraced left run (suc sample) next
                (merge_lines-IsPath (split b'\n' raw) t.hops h) in
            rw (going, trace_samples)
              (record { path = rest.path; runs = omega (arith, rest.runs, longer) })
        | inr (e, over) ↦
            rw (over, trace_samples) (record { path = h; runs = omega (arith, longer) })
      ]

-- The loop over the samples of a normalized request makes at most ten runs of traceroute, whatever they
-- print, and leaves hops of which no two have the same number and of which none has an address twice.
pub trace_samples-ends :
    {F : Type 0} (reader : LineReader F) (r : PathRequest) (run : ℕ → TraceRun)
    → (length (trace_samples reader (pos_part (normalized r).samples) run 0 no_trace).raw ≤ 10)
      × IsPath reader (trace_samples reader (pos_part (normalized r).samples) run 0 no_trace).hops
trace_samples-ends reader r run =
    let traced =
      trace_samples-IsTraced reader (pos_part (normalized r).samples) run 0 no_trace
        (record { numbers = tt; addresses = tt }) in
    (
      ground (
        arith,
        traced.runs,
        (normalized-IsLimited r).few_samples,
        (normalized-IsLimited r).many_samples,
      ),
      traced.path,
    )
