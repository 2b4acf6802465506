-- ===== src/Alerts/Rows.antt =====
-- The rows by their key: what the statements of agent/internal/storage/storage.go do to the set of
-- fingerprints and to a property of every row.
use infracheck_appliance.Base.{
  String, Bool, false, ◌||◌, List, [], ◌∷◌, ◌≡◌, refl, arith, All, any, keep, either, str_eq,
  eq_iff,
}
pub use infracheck_appliance.Base.Result.{unless_fault-both}
use infracheck_appliance.Alerts.{
  Alert, Row, has_fingerprint, fresh, reported, upsert_one, update_where,
}

abbrev pub holds_key : String → List Row → Bool
holds_key f rows = any (has_fingerprint f) rows

-- No fingerprint stands twice: the column is the primary key.
abbrev pub Distinct : List Row → Type 0
Distinct [] = Unit
Distinct (r ∷ rows) = (holds_key r.alert.fingerprint rows ≡ false) × Distinct rows

-- A change of a row that leaves its fingerprint.
abbrev pub KeepsKey : (Row → Row) → Type 0
KeepsKey f = (r : Row) → (f r).alert.fingerprint ≡ r.alert.fingerprint

pub update_where-key :
    (p : Row → Bool) (f : Row → Row) (k : String) (rows : List Row)
    → KeepsKey f
    → holds_key k (update_where p f rows) ≡ holds_key k rows
unfolding update_where
update_where-key p f k [] same = refl
update_where-key p f k (r ∷ rows) same = ground (arith, same r, update_where-key p f k rows same)

pub update_where-Distinct :
    (p : Row → Bool) (f : Row → Row) (rows : List Row)
    → KeepsKey f
    → Distinct rows
    → Distinct (update_where p f rows)
unfolding update_where
update_where-Distinct p f [] same d = tt
update_where-Distinct p f (r ∷ rows) same d = ground (
  arith,
  same r,
  update_where-key p f r.alert.fingerprint rows same,
  update_where-Distinct p f rows same d.1,
)

pub upsert_one-key :
    (now k : String) (a : Alert) (rows : List Row)
    → holds_key k (upsert_one now a rows) ≡ (str_eq a.fingerprint k || holds_key k rows)
unfolding upsert_one
upsert_one-key now k a [] = refl
upsert_one-key now k a (r ∷ rows) = ground (
  arith,
  upsert_one-key now k a rows,
  eq_iff r.alert.fingerprint a.fingerprint,
  eq_iff a.fingerprint k,
  eq_iff r.alert.fingerprint k,
)

pub upsert_one-Distinct :
    (now : String) (a : Alert) (rows : List Row) → Distinct rows → Distinct (upsert_one now a rows)
unfolding upsert_one
upsert_one-Distinct now a [] d = ground arith
upsert_one-Distinct now a (r ∷ rows) d = ground (
  arith,
  upsert_one-Distinct now a rows d.1,
  upsert_one-key now r.alert.fingerprint a rows,
  eq_iff r.alert.fingerprint a.fingerprint,
  eq_iff a.fingerprint r.alert.fingerprint,
)

keep-key :
    (p : Row → Bool) (k : String) (rows : List Row)
    → holds_key k rows ≡ false
    → holds_key k (keep p rows) ≡ false
keep-key p k [] h = refl
keep-key p k (r ∷ rows) h = ground (arith, keep-key p k rows)

pub keep-Distinct : (p : Row → Bool) (rows : List Row) → Distinct rows → Distinct (keep p rows)
keep-Distinct p [] d = tt
keep-Distinct p (r ∷ rows) d =
    ground (arith, keep-Distinct p rows d.1, keep-key p r.alert.fingerprint rows d.0)

module _ (P : Row → Type 0) where
  pub update_where-All :
      (p : Row → Bool) (f : Row → Row) (rows : List Row)
      → ((r : Row) → P r → P (f r))
      → All P rows
      → All P (update_where p f rows)
  unfolding update_where
  update_where-All p f [] step h = tt
  update_where-All p f (r ∷ rows) step h =
      (either P (p r) (f r) r (step r h.0) h.0, update_where-All p f rows step h.1)

  pub upsert_one-All :
      (now : String) (a : Alert) (rows : List Row)
      → P (fresh now a)
      → ((r : Row) → P r → P (reported now a r))
      → All P rows
      → All P (upsert_one now a rows)
  unfolding upsert_one
  upsert_one-All now a [] new step h = (new, tt)
  upsert_one-All now a (r ∷ rows) new step h =
      either (All P) (has_fingerprint a.fingerprint r) (reported now a r ∷ rows)
        (r ∷ upsert_one now a rows) (step r h.0, h.1) (h.0, upsert_one-All now a rows new step h.1)

  pub keep-All : (p : Row → Bool) (rows : List Row) → All P rows → All P (keep p rows)
  keep-All p [] h = tt
  keep-All p (r ∷ rows) h =
      either (All P) (p r) (r ∷ keep p rows) (keep p rows) (h.0, keep-All p rows h.1)
        (keep-All p rows h.1)
