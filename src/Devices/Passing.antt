-- ===== src/Devices/Passing.antt =====
-- The conditions under which a device gives no mismatch (agent/internal/agent/expectations_api.go).
use infracheck_appliance.Base.{
  String, Bool, true, false, ◌&&◌, ◌||◌, not, List, [], ◌∷◌, ◌++◌, ◌≡◌, ◌↔◌, refl, sym, ◌∙◌, arith,
  All, map, any, keep, str_eq,
}
use infracheck_appliance.Base.Int.{ℤ}
use infracheck_appliance.Base.Text.{contains, to_lower}
use infracheck_appliance.Devices.{Device, Expectation}
use infracheck_appliance.Devices.Classify.{is_none}
use infracheck_appliance.Devices.Expected.{same_ints, mismatches, one_if, given, equal_fold}

none-append : {A : Type 0} (xs ys : List A) → is_none (xs ++ ys) ≡ (is_none xs && is_none ys)
none-append [] ys = refl
none-append (x ∷ xs) ys = refl

pub none_iff : {A : Type 0} (xs : List A) → (is_none xs ≡ true) ↔ (xs ≡ [])
none_iff [] = ground arith
none_iff (x ∷ xs) = ground arith

none-one_if : (b : Bool) (text : String) → is_none (one_if b text) ≡ not b
none-one_if true text = refl
none-one_if false text = refl

none-map-keep :
    (p : String → Bool) (f : String → String) (xs : List String)
    → is_none (map f (keep p xs)) ≡ not (any p xs)
none-map-keep p f [] = refl
none-map-keep p f (x ∷ xs) = ground (arith, none-map-keep p f xs)

-- None of the conditions of a mismatch holds.
pub record Passes (observed : List ℤ) (d : Device) (e : Expectation) : Type 0 where
  pub authorized : (str_eq e.authorization "blocked" || str_eq e.authorization "review") ≡ false
  pub ip : (str_eq e.expected_ip "" || str_eq e.expected_ip d.row.ip) ≡ true
  pub category : (str_eq e.expected_category "" || equal_fold e.expected_category d.category) ≡ true
  pub ports : (is_none e.expected_ports || same_ints e.expected_ports observed) ≡ true
  pub services :
      any (λ s. not (contains (to_lower d.row.services) (to_lower s))) e.expected_services ≡ false
  pub vlan : (str_eq e.expected_vlan "" || str_eq e.expected_vlan d.vlan) ≡ true
  pub switch : (str_eq e.expected_switch "" || equal_fold e.expected_switch d.switch_host) ≡ true
  pub port :
      (str_eq e.expected_port ""
        || str_eq e.expected_port d.switch_port
        || equal_fold e.expected_port d.switch_if_name)
      ≡ true

-- The conditions of the nine kinds of mismatch.
abbrev wrong : List ℤ → Device → Expectation → List Bool
wrong observed d e =
    str_eq e.authorization "blocked"
    ∷ str_eq e.authorization "review"
    ∷ (given e.expected_ip && not (str_eq e.expected_ip d.row.ip))
    ∷ (given e.expected_category && not (equal_fold e.expected_category d.category))
    ∷ (not (is_none e.expected_ports) && not (same_ints e.expected_ports observed))
    ∷ any (λ s. not (contains (to_lower d.row.services) (to_lower s))) e.expected_services
    ∷ (given e.expected_vlan && not (str_eq e.expected_vlan d.vlan))
    ∷ (given e.expected_switch && not (equal_fold e.expected_switch d.switch_host))
    ∷ (given e.expected_port
        && not (str_eq e.expected_port d.switch_port)
        && not (equal_fold e.expected_port d.switch_if_name))
    ∷ []

abbrev none_true : List Bool → Bool
none_true [] = true
none_true (b ∷ []) = not b
none_true (b ∷ bs) = not b && none_true bs

and_assoc : (a b c : Bool) → ((a && b) && c) ≡ (a && (b && c))
and_assoc a b c = ground arith

none-mismatches :
    (observed : List ℤ) (d : Device) (e : Expectation)
    → is_none (mismatches observed d e) ≡ none_true (wrong observed d e)
unfolding mismatches
none-mismatches observed d e = simp (none-append, none-one_if, none-map-keep, and_assoc) refl

none_true_iff : (bs : List Bool) → (none_true bs ≡ true) ↔ All (λ b. b ≡ false) bs
none_true_iff [] = ((λ h. tt), (λ h. refl))
none_true_iff (true ∷ []) = ground arith
none_true_iff (false ∷ []) = ((λ h. (refl, tt)), (λ h. refl))
none_true_iff (true ∷ c ∷ bs) = ((λ h. ground (arith, h)), (λ h. ground (arith, h.0)))
none_true_iff (false ∷ c ∷ bs) =
    ((λ h. (refl, (none_true_iff (c ∷ bs)).0 h)), (λ h. (none_true_iff (c ∷ bs)).1 h.1))

met : (g e : Bool) → (not g && not e) ≡ false → (g || e) ≡ true
met g e h = ground (arith, h)

missed : (g e : Bool) → (g || e) ≡ true → (not g && not e) ≡ false
missed g e h = ground (arith, h)

missed_port : (g e f : Bool) → (g || e || f) ≡ true → (not g && not e && not f) ≡ false
missed_port g e f h = ground (arith, h)

or_left : (a b : Bool) → (a || b) ≡ false → a ≡ false
or_left a b h = ground (arith, h)

or_right : (a b : Bool) → (a || b) ≡ false → b ≡ false
or_right a b h = ground (arith, h)

meets :
    (observed : List ℤ) (d : Device) (e : Expectation)
    → All (λ b. b ≡ false) (wrong observed d e)
    → Passes observed d e
meets observed d e
      (blocked, (review, (ip, (category, (ports, (services, (vlan, (switch, (port, rest))))))))) =
    record {
      authorized = ground (arith, blocked, review);
      ip = met _ _ ip;
      category = met _ _ category;
      ports = met _ _ ports;
      services = services;
      vlan = met _ _ vlan;
      switch = met _ _ switch;
      port = ground (arith, port);
    }

pub mismatches-Passes :
    (observed : List ℤ) (d : Device) (e : Expectation)
    → (mismatches observed d e ≡ []) ↔ Passes observed d e
mismatches-Passes observed d e = (
  (λ h. meets observed d e (
      (none_true_iff (wrong observed d e)).0
        (sym (none-mismatches observed d e) ∙ (none_iff (mismatches observed d e)).1 h))),
  (λ m. (none_iff (mismatches observed d e)).0 (
      none-mismatches observed d e
      ∙ (none_true_iff (wrong observed d e)).1 (
        or_left _ _ m.authorized,
        (
          or_right _ _ m.authorized,
          (
            missed _ _ m.ip,
            (
              missed _ _ m.category,
              (
                missed _ _ m.ports,
                (
                  m.services,
                  (missed _ _ m.vlan, (missed _ _ m.switch, (missed_port _ _ _ m.port, tt))),
                ),
              ),
            ),
          ),
        ),
      ))),
)
