-- ===== src/Identity/Samples.antt =====
-- Surroundings in which a lease and a service of mDNS name the device.
use infracheck_appliance.Base.{none, some, [], ◌∷◌, if◌then◌else◌, str_eq}
use infracheck_appliance.Identity.{Surroundings, IdentityTarget}

abbrev pub at_home : Surroundings
at_home = record {
  read_file = λ path.
      if str_eq path "/tmp/dhcp.leases"
      then some "1700000000 aa:bb:cc:00:00:01 10.0.0.7 phone *\n"
      else none;
  resolver_error = none;
  browse = λ service. some (
      record { host_name = "phone.local."; instance_name = "x"; addresses = "10.0.0.7" ∷ [] } ∷ []);
  nmblookup = none;
  netbios_names = λ out. [];
  snmpget = none;
  lookup_addr = λ ip. "phone.lan." ∷ [];
}

abbrev pub phone_target : IdentityTarget
phone_target = record { ip = "10.0.0.7"; mac = "aa:bb:cc:00:00:01" }
