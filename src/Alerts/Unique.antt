-- ===== src/Alerts/Unique.antt =====
-- What deduplication keeps (agent/internal/agent/alerts_api.go).
use infracheck_appliance.Base.{
  String, Bool, true, false, ◌||◌, Option, none, some, List, [], ◌∷◌, ◌++◌, ◌≡◌, ◌⊎◌, inl, inr,
  refl, ◌∙◌, sym, ap, arith, if◌then◌else◌, str_eq, eq_iff, any, All, Bool-cases, append-nil,
  append_assoc, either,
}
use infracheck_appliance.Base.Dict.{Dict, lookup, insert, values}
use infracheck_appliance.Alerts.{Row}
use infracheck_appliance.Alerts.Dedupe.{
  better_alert_record, merged, dedupe_key, dedupe_loop, dedupe_alert_records,
}

-- The better of two records is one of them.
better_is : (a b : Row) → (better_alert_record a b ≡ a) ⊎ (better_alert_record a b ≡ b)
unfolding better_alert_record
better_is a b = ground arith

better-key :
    (a b : Row) (k : String)
    → dedupe_key a ≡ k
    → dedupe_key b ≡ k
    → dedupe_key (better_alert_record a b) ≡ k
better-key a b k p q = elim (better_is a b) [
  | inl e ↦ ap dedupe_key e ∙ p
  | inr e ↦ ap dedupe_key e ∙ q
]

abbrev pub is_internal : Row → Bool
is_internal r = str_eq r.alert.source "internal"

pub better-internal :
    (a b : Row) → is_internal (better_alert_record a b) ≡ (is_internal a || is_internal b)
unfolding better_alert_record
better-internal a b = ground (
  arith,
  eq_iff a.alert.source "internal",
  eq_iff b.alert.source "internal",
  eq_iff a.alert.source b.alert.source,
)

-- Every entry stands under its own key.
abbrev pub IsKeyed : Dict Row → Type 0
IsKeyed = All (λ (k, r). dedupe_key r ≡ k)

abbrev pub has_key : String → Dict Row → Bool
has_key k d = any (λ (j, r). str_eq j k) d

-- No key stands twice.
abbrev Distinct : Dict Row → Type 0
Distinct [] = Unit
Distinct ((k, r) ∷ d) = (has_key k d ≡ false) × Distinct d

insert-IsKeyed :
    (k : String) (r : Row) (d : Dict Row) → dedupe_key r ≡ k → IsKeyed d → IsKeyed (insert k r d)
unfolding insert
insert-IsKeyed k r [] same h = (same, tt)
insert-IsKeyed k r ((j, s) ∷ d) same h =
    either IsKeyed (str_eq j k) ((k, r) ∷ d) ((j, s) ∷ insert k r d) (same, h.1)
      (h.0, insert-IsKeyed k r d same h.1)

insert-has_key :
    (k j : String) (r : Row) (d : Dict Row) → has_key j (insert k r d) ≡ (str_eq k j || has_key j d)
unfolding insert
insert-has_key k j r [] = refl
insert-has_key k j r ((i, s) ∷ d) =
    ground (arith, insert-has_key k j r d, eq_iff i k, eq_iff k j, eq_iff i j)

insert-Distinct : (k : String) (r : Row) (d : Dict Row) → Distinct d → Distinct (insert k r d)
unfolding insert
insert-Distinct k r [] h = (refl, tt)
insert-Distinct k r ((j, s) ∷ d) h =
    ground (arith, insert-has_key k j r d, insert-Distinct k r d h.1, eq_iff j k, eq_iff k j)

here :
    (b : Bool) (s r : Row) (o : Option Row) → b ≡ true → (if b then some s else o) ≡ some r → s ≡ r
here b s r o same found = ground arith

pub there :
    (b : Bool) (s r : Row) (o : Option Row)
    → b ≡ false
    → (if b then some s else o) ≡ some r
    → o ≡ some r
there b s r o other found = ground arith

lookup-IsKeyed :
    (k : String) (d : Dict Row) (r : Row) → IsKeyed d → lookup k d ≡ some r → dedupe_key r ≡ k
unfolding lookup
lookup-IsKeyed k [] r h found = ground arith
lookup-IsKeyed k ((j, s) ∷ d) r h found = elim (Bool-cases (str_eq j k)) [
  | inl same ↦
      ap dedupe_key (sym (here (str_eq j k) s r (lookup k d) same found))
      ∙ h.0
      ∙ (eq_iff j k).0 same
  | inr other ↦ lookup-IsKeyed k d r h.1 (there (str_eq j k) s r (lookup k d) other found)
]

merged-key :
    (k : String) (d : Dict Row) (r : Row)
    → IsKeyed d
    → dedupe_key r ≡ k
    → dedupe_key (merged (lookup k d) r) ≡ k
merged-key k d r h same = merged-key_of (lookup k d) (λ s. lookup-IsKeyed k d s h)
  where
    merged-key_of :
        (o : Option Row) → ((s : Row) → o ≡ some s → dedupe_key s ≡ k) → dedupe_key (merged o r) ≡ k
    merged-key_of none found = same
    merged-key_of (some s) found = better-key s r k (found s refl) same

pub record IsTable (d : Dict Row) : Type 0 where
  pub keyed : IsKeyed d
  pub distinct : Distinct d

loop-IsTable : (d : Dict Row) (rs : List Row) → IsTable d → IsTable (dedupe_loop d rs)
unfolding dedupe_loop
loop-IsTable d [] h = h
loop-IsTable d (r ∷ rs) h =
    loop-IsTable (insert (dedupe_key r) (merged (lookup (dedupe_key r) d) r) d) rs (record {
      keyed =
          insert-IsKeyed (dedupe_key r) _ d (merged-key (dedupe_key r) d r h.keyed refl) h.keyed;
      distinct = insert-Distinct (dedupe_key r) _ d h.distinct;
    })

lookup-fresh : (k : String) (d : Dict Row) → has_key k d ≡ false → lookup k d ≡ none
unfolding lookup
lookup-fresh k [] h = refl
lookup-fresh k ((j, r) ∷ d) h = ground (arith, lookup-fresh k d)

insert-fresh :
    (k : String) (r : Row) (d : Dict Row) → has_key k d ≡ false → insert k r d ≡ d ++ (k, r) ∷ []
unfolding insert
insert-fresh k r [] h = refl
insert-fresh k r ((j, s) ∷ d) h = ground (arith, insert-fresh k r d)

-- No key of the second table is in the first.
abbrev Apart : Dict Row → Dict Row → Type 0
Apart d [] = Unit
Apart d ((k, r) ∷ e) = (has_key k d ≡ false) × Apart (d ++ (k, r) ∷ []) e

once :
    (j k : String) (r : Row) (d : Dict Row)
    → j ≡ k
    → has_key k d ≡ false
    → insert j (merged (lookup j d) r) d ≡ d ++ (k, r) ∷ []
once j k r d same new =
    ap (λ i. insert i (merged (lookup i d) r) d) same
    ∙ rw (lookup-fresh k d new) (insert-fresh k r d new)

loop-again : (d e : Dict Row) → IsKeyed e → Apart d e → dedupe_loop d (values e) ≡ d ++ e
unfolding dedupe_loop values
loop-again d [] h apart = sym (append-nil d)
loop-again d ((k, r) ∷ e) h apart =
    ap (λ t. dedupe_loop t (values e)) (once (dedupe_key r) k r d h.0 apart.0)
    ∙ loop-again (d ++ (k, r) ∷ []) e h.1 apart.1
    ∙ append_assoc d ((k, r) ∷ []) e

has_key-append : (k : String) (d e : Dict Row) → has_key k (d ++ e) ≡ (has_key k d || has_key k e)
has_key-append k [] e = refl
has_key-append k ((j, r) ∷ d) e = ground (arith, has_key-append k d e)

apart_snoc :
    (d e : Dict Row) (k : String) (r : Row)
    → has_key k e ≡ false
    → All (λ (j, s). has_key j d ≡ false) e
    → All (λ (j, s). has_key j (d ++ (k, r) ∷ []) ≡ false) e
apart_snoc d [] k r h new = tt
apart_snoc d ((j, s) ∷ e) k r h new = (
  ground (arith, h, new.0, has_key-append j d ((k, r) ∷ []), eq_iff j k, eq_iff k j),
  apart_snoc d e k r (ground (arith, h)) new.1,
)

Distinct-Apart : (d e : Dict Row) → Distinct e → All (λ (k, r). has_key k d ≡ false) e → Apart d e
Distinct-Apart d [] h new = tt
Distinct-Apart d ((k, r) ∷ e) h new =
    (new.0, Distinct-Apart (d ++ (k, r) ∷ []) e h.1 (apart_snoc d e k r h.0 new.1))

none_held : (e : Dict Row) → All (λ (k, r). has_key k [] ≡ false) e
none_held [] = tt
none_held ((k, r) ∷ e) = (refl, none_held e)

pub dedupe-IsTable : (rs : List Row) → IsTable (dedupe_loop [] rs)
dedupe-IsTable rs = loop-IsTable [] rs (record { keyed = tt; distinct = tt })

-- Deduplicating twice is deduplicating once: the same records in the same order.
pub dedupe_alert_records_idem :
    (rs : List Row) → dedupe_alert_records (dedupe_alert_records rs) ≡ dedupe_alert_records rs
unfolding dedupe_alert_records
dedupe_alert_records_idem rs =
    let table = dedupe-IsTable rs in
    ap values (
      loop-again [] (dedupe_loop [] rs) table.keyed
        (Distinct-Apart [] (dedupe_loop [] rs) table.distinct (none_held (dedupe_loop [] rs))))
