-- ===== src/Devices/Stored.antt =====
-- What the handler that changes an expectation stores (agent/internal/agent/expectations_api.go).
use infracheck_appliance.Base.{
  ℕ, String, Bool, true, ◌&&◌, ◌||◌, not, Option, none, some, List, [], ◌∷◌, ◌≡◌, ◌⊎◌, inl, inr,
  refl, ap, sym, ◌∙◌, arith, str_eq, eq_refl, Bool-cases, either,
}
use infracheck_appliance.Base.Distinct.{replace}
use infracheck_appliance.Base.Result.{
  Result, ok, err, Response, answer, refuse, no_rows, unless_fault, unless_fault-none,
  unless_fault-cases,
}
use infracheck_appliance.Field.Throughput.{IsSanitized, sanitize_ports-IsSanitized}
use infracheck_appliance.Devices.{Device, Expectation, Inventory, find_expectation}
use infracheck_appliance.Devices.Select.{device}
use infracheck_appliance.Devices.Records.{
  expects_same, put_expectation, device_expectation, upsert_device_expectation,
}
use infracheck_appliance.Devices.Expected.{
  update_device_expectation, device_id_of, for_device, checked, requested_expectation,
  is_authorization, stored_answer,
}

find-replace :
    (e : Expectation) (es : List Expectation)
    → find_expectation e.site_id e.device_id (replace expects_same e es) ≡ some e
unfolding find_expectation replace
find-replace e [] = ground (arith, eq_refl e.site_id)
find-replace e (f ∷ es) = ground (arith, eq_refl e.site_id, find-replace e es)

-- Without an error, what is put in is found.
read_back :
    (e : Expectation) (db : Inventory)
    → db.fault ≡ none
    → device_expectation e.site_id e.device_id
        (record db { expectations = put_expectation e db.expectations })
      ≡ ok e
unfolding device_expectation put_expectation
read_back e db works =
    unless_fault-none (λ found. found ≡ ok e) db.fault err _ works
      (ap (λ found. elim found as (λ x. Result Expectation) [ none ↦ err no_rows | some f ↦ ok f ])
        (find-replace e db.expectations))

-- What the handler lets pass.
pub record IsAccepted (is_ip : String → Bool) (site : String) (e : Expectation) : Type 0 where
  pub site_id : e.site_id ≡ site
  pub authorization : is_authorization e.authorization ≡ true
  pub ip : (str_eq e.expected_ip "" || is_ip e.expected_ip) ≡ true
  pub ports : IsSanitized e.expected_ports

-- The table holds the expectation, which is an accepted one, for its device.
abbrev pub Holds : (String → Bool) → String → Inventory → Expectation → Type 0
Holds is_ip site db e = IsAccepted is_ip site e × (device_expectation site e.device_id db ≡ ok e)

abbrev pub Outcome :
    (String → Bool) → String → Option String → Inventory → Inventory × Response Expectation → Type 0
Outcome is_ip site reread db (db2, answer e) = Holds is_ip site db2 e
Outcome is_ip site reread db (db2, refuse status text) =
    (db2 ≡ db)
    ⊎ ((status ≡ 500) × (reread ≡ some text) × ((e : Expectation) × Holds is_ip site db2 e))

answered-Outcome :
    (is_ip : String → Bool) (site : String) (reread : Option String) (db db2 : Inventory)
    (e : Expectation) (found : Result Expectation)
    → found ≡ ok e
    → Holds is_ip site db2 e
    → Outcome is_ip site reread db (stored_answer (db2, unless_fault reread err found))
answered-Outcome is_ip site none db db2 e found same kept = rw same kept
answered-Outcome is_ip site (some text) db db2 e found same kept = inr (refl, refl, (e, kept))

stored-Outcome :
    (is_ip : String → Bool) (reread : Option String) (now site : String) (e : Expectation)
    (db : Inventory)
    → IsAccepted is_ip site e
    → Outcome is_ip site reread db (stored_answer (upsert_device_expectation reread now e db))
unfolding upsert_device_expectation
stored-Outcome is_ip reread now site e db a =
    unless_fault-cases (λ s. Outcome is_ip site reread db (stored_answer s)) db.fault _ _
      (λ broken. inl refl)
      (λ works.
        let e2 = record e { updated_at = now } in
        let found = read_back e2 db works in
        answered-Outcome is_ip site reread db
          (record db { expectations = put_expectation e2 db.expectations }) e2 _ found
          (
            record {
              site_id = a.site_id;
              authorization = a.authorization;
              ip = a.ip;
              ports = a.ports;
            },
            ap
                  (λ s.
                    device_expectation s e.device_id
                      (record db { expectations = put_expectation e2 db.expectations }))
                  (sym a.site_id)
                ∙ found,
          ))

checked-Outcome :
    (is_ip : String → Bool) (reread : Option String) (now site : String) (e : Expectation)
    (db : Inventory)
    → e.site_id ≡ site
    → IsSanitized e.expected_ports
    → Outcome is_ip site reread db (checked is_ip reread now e db)
checked-Outcome is_ip reread now site e db same ports =
    elim (Bool-cases (is_authorization e.authorization)) [
      | inr refused ↦ rw refused (inl refl)
      | inl fine ↦
          rw fine (elim (Bool-cases (not (str_eq e.expected_ip "") && not (is_ip e.expected_ip))) [
            | inl bad ↦ rw bad (inl refl)
            | inr good ↦ rw good (
                stored-Outcome is_ip reread now site e db (record {
                  site_id = same;
                  authorization = fine;
                  ip = ground (arith, good);
                  ports = ports;
                }))
          ])
    ]

for_device-Outcome :
    (is_ip : String → Bool) (reread : Option String) (now site : String) (id : ℕ)
    (body : Result Expectation) (db : Inventory) (found : Result Device)
    → Outcome is_ip site reread db (for_device is_ip reread now site id body db found)
for_device-Outcome is_ip reread now site id body db (err e) =
    either (λ r. Outcome is_ip site reread db (db, r)) (str_eq e no_rows)
      (refuse 404 "device not found") (refuse 500 e) (inl refl) (inl refl)
for_device-Outcome is_ip reread now site id (err e) db (ok d) = inl refl
for_device-Outcome is_ip reread now site id (ok req) db (ok d) =
    checked-Outcome is_ip reread now site (requested_expectation site id req) db refl
      (sanitize_ports-IsSanitized req.expected_ports)

-- Where the handler answers an expectation, it is one of the site, its authorization is one of the
-- three, its address is empty or one that the parser reads, its ports are at most 32, valid and
-- distinct, and it is what the table then holds for its device. Where the handler refuses, it leaves the
-- database as it is, or the refusal is the 500 with the error that the query that reads the row again
-- met, and the table then holds such an expectation.
pub update_device_expectation-stored :
    (is_ip : String → Bool) (reread : Option String) (now site path_id : String)
    (body : Result Expectation) (db : Inventory)
    → Outcome is_ip site reread db (update_device_expectation is_ip reread now site path_id body db)
unfolding update_device_expectation
update_device_expectation-stored is_ip reread now site path_id body db =
    elim (device_id_of path_id)
      as (λ o. Outcome is_ip site reread db (elim o [
        | none ↦ (db, refuse 400 "invalid device id")
        | some id ↦ for_device is_ip reread now site id body db (device site id db)
      ])) [
        | none ↦ inl refl
        | some id ↦ for_device-Outcome is_ip reread now site id body db (device site id db)
      ]
