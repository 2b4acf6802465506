-- ===== src/Settings.antt =====
-- The table `app_settings` (Setting and SetSetting of agent/internal/storage/storage.go).
use infracheck_appliance.Base.{String, Option, none, some, ◌≡◌, arith, if◌then◌else◌, str_eq}
use infracheck_appliance.Base.Dict.{Dict, lookup, insert, lookup-insert}

-- `fault` is the error that the database answers to every statement, if it answers one.
pub record Settings : Type 0 where
  pub rows : Dict String
  pub fault : Option String

-- `(value, ok, err)`
pub data Found : Type 0 where
  found : String → Found
  absent : Found
  broken : String → Found

abbrev from_row : Option String → Found
from_row none = absent
from_row (some v) = found v

unfoldable pub setting : String → Settings → Found
setting key db = elim db.fault [ some e ↦ broken e | none ↦ from_row (lookup key db.rows) ]

unfoldable pub set_setting : String → String → Settings → Settings × Option String
set_setting key value db =
    if str_eq key "" then (db, some "setting key is required") else elim db.fault [
      | some e ↦ (db, some e)
      | none ↦ (record db { rows = insert key value db.rows }, none)
    ]

-- After a write that succeeded, a read of the key answers the value, and a read of another key
-- answers what it did.
pub setting-set_setting :
    (key key' value : String) (db : Settings)
    → (set_setting key value db).1 ≡ none
    → setting key' (set_setting key value db).0
      ≡ (if str_eq key key' then found value else setting key' db)
unfolding setting set_setting
setting-set_setting key key' value db h = ground (arith, lookup-insert key key' value db.rows)
