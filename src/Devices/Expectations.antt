-- ===== src/Devices/Expectations.antt =====
-- What a device is expected to be (agent/internal/agent/expectations_api.go).
use infracheck_appliance.Base.{
  String, Bool, true, false, ◌||◌, not, List, [], ◌∷◌, ◌≡◌, ◌≢◌, ◌⊎◌, ◌↔◌, inl, inr, refl, arith,
  All, any, str_eq, eq_iff, Bool-cases,
}
use infracheck_appliance.Base.Int.{ℤ}
use infracheck_appliance.Base.Text.{contains, to_lower}
use infracheck_appliance.Devices.{Device, Expectation}
use infracheck_appliance.Devices.Classify.{is_none}
use infracheck_appliance.Devices.Expected.{same_ints, mismatches}
use infracheck_appliance.Devices.Matching.{count, same_ints_iff}
use infracheck_appliance.Devices.Passing.{Passes, mismatches-Passes, none_iff}

-- The texts are the same but for the case of their letters.
abbrev SameFold : String → String → Type 0
SameFold a b = to_lower a ≡ to_lower b

-- The device is what the expectation names of it.
pub record MeetsExpectation (observed : List ℤ) (d : Device) (e : Expectation) : Type 0 where
  pub not_blocked : e.authorization ≢ "blocked"
  pub not_reviewed : e.authorization ≢ "review"
  pub ip : (e.expected_ip ≡ "") ⊎ (e.expected_ip ≡ d.row.ip)
  pub category : (e.expected_category ≡ "") ⊎ SameFold e.expected_category d.category
  pub ports : (e.expected_ports ≡ []) ⊎ ((k : ℤ) → count k e.expected_ports ≡ count k observed)
  pub services :
      All (λ s. contains (to_lower d.row.services) (to_lower s) ≡ true) e.expected_services
  pub vlan : (e.expected_vlan ≡ "") ⊎ (e.expected_vlan ≡ d.vlan)
  pub switch : (e.expected_switch ≡ "") ⊎ SameFold e.expected_switch d.switch_host
  pub port :
      (e.expected_port ≡ "")
      ⊎ ((e.expected_port ≡ d.switch_port) ⊎ SameFold e.expected_port d.switch_if_name)

or_iff : (a b : Bool) → ((a || b) ≡ true) ↔ ((a ≡ true) ⊎ (b ≡ true))
or_iff true b = ((λ h. inl refl), (λ h. refl))
or_iff false b = ((λ h. inr h), (λ h. elim h [ inl no_way ↦ ground (arith, no_way) | inr k ↦ k ]))

-- A disjunction of tests is one of what they test.
tests_iff :
    {P Q : Type 0} (a b : Bool) → ((a ≡ true) ↔ P) → ((b ≡ true) ↔ Q) → ((a || b) ≡ true) ↔ (P ⊎ Q)
tests_iff a b p q = (
  λ h. elim ((or_iff a b).0 h) [ inl k ↦ inl (p.0 k) | inr k ↦ inr (q.0 k) ],
  λ h. elim h [ inl k ↦ (or_iff a b).1 (inl (p.1 k)) | inr k ↦ (or_iff a b).1 (inr (q.1 k)) ],
)

named_iff : (s t : String) → ((str_eq s "" || str_eq s t) ≡ true) ↔ ((s ≡ "") ⊎ (s ≡ t))
named_iff s t = tests_iff (str_eq s "") (str_eq s t) (eq_iff s "") (eq_iff s t)

folded_iff :
    (s t : String)
    → ((str_eq s "" || str_eq (to_lower s) (to_lower t)) ≡ true) ↔ ((s ≡ "") ⊎ SameFold s t)
folded_iff s t =
    tests_iff (str_eq s "") (str_eq (to_lower s) (to_lower t)) (eq_iff s "")
      (eq_iff (to_lower s) (to_lower t))

ported_iff :
    (s t u : String)
    → ((str_eq s "" || str_eq s t || str_eq (to_lower s) (to_lower u)) ≡ true)
      ↔ ((s ≡ "") ⊎ ((s ≡ t) ⊎ SameFold s u))
ported_iff s t u =
    let any_port =
      tests_iff (str_eq s "") (str_eq s t || str_eq (to_lower s) (to_lower u)) (eq_iff s "") (
        tests_iff (str_eq s t) (str_eq (to_lower s) (to_lower u)) (eq_iff s t)
          (eq_iff (to_lower s) (to_lower u))) in
    (λ h. any_port.0 (ground (arith, h)), λ h. ground (arith, any_port.1 h))

every_iff :
    (p : String → Bool) (xs : List String)
    → (any (λ s. not (p s)) xs ≡ false) ↔ All (λ s. p s ≡ true) xs
every_iff p [] = ((λ h. tt), (λ h. refl))
every_iff p (x ∷ xs) = (
  λ h. (ground (arith, h), (every_iff p xs).0 (ground (arith, h))),
  λ h. ground (arith, h.0, (every_iff p xs).1 h.1),
)

different : (s t : String) → str_eq s t ≡ false → s ≢ t
different s t h same = ground (arith, h, (eq_iff s t).1 same)

unequal : (s t : String) → s ≢ t → str_eq s t ≡ false
unequal s t other = elim (Bool-cases (str_eq s t)) [
  | inl same ↦ absurd (other ((eq_iff s t).0 same))
  | inr fine ↦ fine
]

Passes-MeetsExpectation :
    (observed : List ℤ) (d : Device) (e : Expectation)
    → Passes observed d e
    → MeetsExpectation observed d e
Passes-MeetsExpectation observed d e p = record {
  not_blocked = different e.authorization "blocked" (ground (arith, p.authorized));
  not_reviewed = different e.authorization "review" (ground (arith, p.authorized));
  ip = (named_iff e.expected_ip d.row.ip).0 p.ip;
  category = (folded_iff e.expected_category d.category).0 p.category;
  ports =
      (tests_iff (is_none e.expected_ports) (same_ints e.expected_ports observed)
          (none_iff e.expected_ports) (same_ints_iff e.expected_ports observed)).0
        p.ports;
  services = (every_iff (λ s. contains (to_lower d.row.services) (to_lower s)) _).0 p.services;
  vlan = (named_iff e.expected_vlan d.vlan).0 p.vlan;
  switch = (folded_iff e.expected_switch d.switch_host).0 p.switch;
  port = (ported_iff e.expected_port d.switch_port d.switch_if_name).0 p.port;
}

MeetsExpectation-Passes :
    (observed : List ℤ) (d : Device) (e : Expectation)
    → MeetsExpectation observed d e
    → Passes observed d e
MeetsExpectation-Passes observed d e m = record {
  authorized = ground (
    arith,
    unequal e.authorization "blocked" m.not_blocked,
    unequal e.authorization "review" m.not_reviewed,
  );
  ip = (named_iff e.expected_ip d.row.ip).1 m.ip;
  category = (folded_iff e.expected_category d.category).1 m.category;
  ports =
      (tests_iff (is_none e.expected_ports) (same_ints e.expected_ports observed)
          (none_iff e.expected_ports) (same_ints_iff e.expected_ports observed)).1
        m.ports;
  services = (every_iff (λ s. contains (to_lower d.row.services) (to_lower s)) _).1 m.services;
  vlan = (named_iff e.expected_vlan d.vlan).1 m.vlan;
  switch = (folded_iff e.expected_switch d.switch_host).1 m.switch;
  port = (ported_iff e.expected_port d.switch_port d.switch_if_name).1 m.port;
}

-- An expectation gives no mismatch exactly if the device is neither blocked nor to be reviewed and each
-- of the following that the expectation names is as observed: the IP and the VLAN are the device's, the
-- category and the switch are the device's but for the case, the port is the device's switch port or,
-- but for the case, its interface name, the ports are the observed ones in some order, and each service
-- is, but for the case, a part of the text of the device's services. The access point that is expected is
-- not compared.
pub mismatches_iff :
    (observed : List ℤ) (d : Device) (e : Expectation)
    → (mismatches observed d e ≡ []) ↔ MeetsExpectation observed d e
mismatches_iff observed d e =
    let passing = mismatches-Passes observed d e in
    (
      λ h. Passes-MeetsExpectation observed d e (passing.0 h),
      λ m. passing.1 (MeetsExpectation-Passes observed d e m),
    )
