-- ===== src/Diagnostics/History.antt =====
-- What the history of ports tells of the stored scans (agent/internal/agent/diagnostics_api.go).
use infracheck_appliance.Base.{
  String, Bool, true, false, ◌&&◌, not, List, [], ◌∷◌, ◌≡◌, keep, any, count, All, str_eq, Among,
}
use infracheck_appliance.Base.Int.{ℤ, ltb_ℤ}
use infracheck_appliance.Base.Dict.{Dict}
use infracheck_appliance.Health.Advanced.{AdvancedResult}
use infracheck_appliance.Devices.Classify.{Json}
use infracheck_appliance.Devices.Persist.{parse_port_list}
use infracheck_appliance.Field.{has_port}
use infracheck_appliance.Diagnostics.{PortHistoryRow, later}
use infracheck_appliance.Diagnostics.Grouped.{key_is}

module _ {F : Type 0} where
  -- No row is later than one that stands before it.
  abbrev pub Descending : List (AdvancedResult F) → Type 0
  Descending [] = Unit
  Descending (x ∷ xs) = All (λ y. later y x ≡ false) xs × Descending xs

  abbrev target_is : String → AdvancedResult F → Bool
  target_is = key_is (λ (r : AdvancedResult F). r.target)

abbrev pub device_is : String → PortHistoryRow → Bool
device_is t h = str_eq h.device_ip t

module _ {F : Type 0} (json : Json) where
  -- The ports are those of a stored scan of the target.
  abbrev pub IsScan : List (AdvancedResult F) → String → List ℤ → Type 0
  IsScan rows ip ports =
      (x : AdvancedResult F) × Among x rows
      × (str_eq x.target ip ≡ true)
      × (parse_port_list json x.details ≡ ports)

  -- What the row says of the scans of its target, of which there is one, the newest first.
  abbrev pub FirstTwo : List (AdvancedResult F) → PortHistoryRow → Type 0
  FirstTwo [] h = ⊥
  FirstTwo (x ∷ []) h =
      (h.latest_at ≡ x.timestamp)
      × (h.latest_ports ≡ parse_port_list json x.details)
      × (h.previous_ports ≡ [])
  FirstTwo (x ∷ y ∷ rest) h =
      (h.latest_at ≡ x.timestamp)
      × (h.latest_ports ≡ parse_port_list json x.details)
      × (h.previous_ports ≡ parse_port_list json y.details)

  -- The scans of the target, the newest first, are in some order of equal times such that the latest
  -- time and ports are those of the first, and the previous ports those of the second or none; the
  -- differences are the ports that only one of the two has; and the latest ports are those of a stored
  -- scan of the target, of which none is later.
  pub record Tells (rows : List (AdvancedResult F)) (h : PortHistoryRow) : Type 0 where
    pub scans : List (AdvancedResult F)
    pub same_scans :
        (p : AdvancedResult F → Bool)
        → count p scans ≡ count p (keep (λ x. str_eq x.target h.device_ip) rows)
    pub newest_first : Descending scans
    pub first_two : FirstTwo scans h
    pub latest : IsScan rows h.device_ip h.latest_ports
    pub last : any (λ x. str_eq x.target h.device_ip && ltb_ℤ h.latest_at x.timestamp) rows ≡ false
    pub opened :
        (v : ℤ)
        → has_port v h.opened_ports
          ≡ (has_port v h.latest_ports && not (has_port v h.previous_ports))
    pub closed :
        (v : ℤ)
        → has_port v h.closed_ports
          ≡ (has_port v h.previous_ports && not (has_port v h.latest_ports))

  abbrev IsStored : List (AdvancedResult F) → String → AdvancedResult F → Type 0
  IsStored rows ip x = Among x rows × (str_eq x.target ip ≡ true)
