-- ===== src/Lib.antt =====
-- Infracheck Appliance: a model of the monitoring agent in Go, and what is proved of it.
--
-- The agent (agent/internal) probes a network, stores the results in SQLite, draws verdicts from
-- them, keeps alerts, and serves all of it over HTTP. Its configuration comes from a file, from the
-- environment, and from a runtime configuration that the HTTP interface writes into the database.
--
-- Parts, with the files that model them:
-- - Base: texts, decimal numbers, signed integers, lists, maps, results, and float64 as an interface.
-- - Config: agent/internal/config/config.go. Config has the types, Config/Default is
--   Default, Config/Environment is applyEnv, Config/Interval is Duration, Timeout and LogLevel, Config/Validate is Validate, with
--   net.ParseCIDR as a parameter, and Config/Valid says what a valid configuration is.
-- - Settings: Setting and SetSetting of agent/internal/storage/storage.go, on the table app_settings.
-- - Runtime: agent/internal/agent/config_api.go. Runtime and Runtime/Layers have the effective
--   configuration and validateRuntimeConfig, Runtime/Update the handlers, Runtime/Cidrs normalizeCIDRs; the proofs are
--   in Runtime/Effective, Runtime/Stored and Runtime/Discovery. encoding/json is a parameter.
-- - Alerts: the table alert_records of agent/internal/storage/storage.go, and in Alerts/Dedupe and
--   Alerts/Handlers the code of agent/internal/agent/alerts_api.go. Proofs: Alerts/Rows,
--   Alerts/Lifecycle, Alerts/Listed, Alerts/Cleared, Alerts/Hidden, Alerts/Closing, Alerts/Unique,
--   Alerts/Internal.
-- - Auth: the guards of agent/internal/agent/agent.go and the change of the admin token in
--   agent/internal/agent/security_api.go. It reads and writes Settings.
-- - Verdict: agent/internal/verdict/verdict.go, with Verdict/Rules and Verdict/Score. Proofs:
--   Verdict/Latest, Verdict/Status, Verdict/Bounds.
-- - Iperf: agent/internal/iperf/manager.go; Iperf/Lifecycle, Iperf/Outcomes and Iperf/Restart have the
--   proofs.
-- - Field: the UDP echo and the throughput download of agent/internal/agent/field_api.go, and
--   sanitizePorts of agent/internal/agent/tools_api.go.
--
-- - Devices: the tables of devices, their classification, expectations and events, of
--   agent/internal/storage/storage.go (Devices, Devices/Select and Devices/Records);
--   Devices/Classify, Devices/Risks and Devices/Persist are agent/internal/agent/device_intelligence.go, Devices/Expected is
--   agent/internal/agent/expectations_api.go, and Alerts/Fingerprint is alertFingerprint of
--   agent/internal/agent/alerts_api.go. encoding/json, net.ParseIP and SHA-1 are parameters. Proofs:
--   Devices/Rows, Devices/Kept, Devices/Lifecycle, Devices/Found, Devices/Known, Devices/Matching,
--   Devices/Passing, Devices/Expectations, Devices/Stored, Devices/Classified.
-- - Health: evaluateHealth of agent/internal/agent/agent.go, with agent/internal/agent/thresholds.go
--   (Health/Sets, Health/Limits, Health/ServiceLimits) and agent/internal/agent/advanced_health.go (Health/Advanced). It puts
--   what Devices lists and the thresholds of Config on top of what Verdict answers (Health/Overlay).
--   Proofs: Health/Codes, Health/Worst, Health/Exceeded,
--   Health/ServicesExceeded, Health/Shown.
--
-- - Current: currentAlertRecords of agent/internal/agent/alerts_api.go, which puts together the alerts
--   of Health, of Prometheus, of Devices and of the expectations, and Current/Switches, the managed
--   switches of agent/internal/agent/diagnostics_api.go. What Prometheus answers is an argument. Proofs:
--   Current/Stable, Alerts/Internal.
--
-- - Discovery: agent/internal/runner/discovery.go, with Discovery/Merge the merge and the run,
--   and Discovery/Networks the networks of the host. What
--   ip, arp, arp-scan and nmap print is an argument. Proofs: Discovery/Merged, Discovery/Held, Discovery/Macs,
--   Discovery/Printed, Discovery/Local, Discovery/Site.
-- - Identity: agent/internal/runner/identity.go, the sources in Identity and what they answer together
--   in Identity/Enrich; Identity/Enriched has the proofs.
-- - Refresh: runDiscovery and enrichDevices of agent/internal/agent/agent.go, which store in Devices what
--   Discovery finds and what Identity learns of it, and in Refresh/Handlers the handlers of the devices,
--   and in Refresh/Enrich toolDeviceEnrich of agent/internal/agent/tools_api.go. Proofs: Refresh/Stored.
-- - Probe: agent/internal/runner/field.go, with Probe/Route and Probe/Path ProgressivePath, Probe/Dhcp DHCPIntegrity,
--   Probe/Resolve DNSIntegrity and Probe/Snmp and Probe/Topology SNMPTopology. Proofs: Probe/Hops, Probe/Offers,
--   Probe/Joined, Probe/Agreed, Probe/Mac, Probe/Located.
-- - Runner: the tests over TCP, of the gateway, of a path and of ports of agent/internal/runner/advanced.go.
-- - Diagnostics: portHistory, traceDiagnostics and parseTraceHops of
--   agent/internal/agent/diagnostics_api.go. Proofs: Diagnostics/Grouped, Diagnostics/History.
-- - Tools: the handlers of agent/internal/agent/tools_api.go, which call Runner, store in Devices what a
--   scan finds and read traces with Diagnostics; Tools/Summaries has their texts. Proofs: Tools/Asked,
--   Tools/Scanned.
--
-- How the state is modelled: a method that changes a value is a function from the old value to the
-- new one and the answer, and what the operating system, the clock or the database answers is an
-- argument. A method that holds a mutex is one step; the goroutine that waits for iperf3 is a step of
-- its own (Iperf/Lifecycle). A database answers every statement or the same error to every
-- statement, so a failure in the middle of a handler is not modelled, but for the query that reads an
-- expectation again after it was stored, which has an error of its own. A time that the database holds
-- is its text, since SQLite compares the texts.
--
-- Fuel: decimal output uses the number itself, which a division by ten makes smaller; the download's
-- blocks use the number of bytes, since a block has at least one; the pieces of a text use its length,
-- since each separator has at least one byte; the samples of a path use their number. Lists are
-- structural.
--
-- Not modelled: the runners of ping, DNS, HTTP and the speed test, which only call programs and the
-- network; the tests of NTP, TLS and the appliance itself; the report, the user interface and the metrics,
-- which are layout; the queries of test results and of Wi-Fi observations; and the loops and timers of
-- the agent. The summary of DNS results and the page of the topology are left out, too.
-- A line of a program's output may have any length, where bufio.Scanner stops at 64 KiB. Go leaves
-- the order of a map's entries open and SQLite the order of equal rows; the model takes the order of
-- insertion. Letters above 127 have no case here, and strings.EqualFold compares the lower case.
pub mod Alerts
pub mod Auth
pub mod Base
pub mod Config
pub mod Current
pub mod Devices
pub mod Diagnostics
pub mod Discovery
pub mod Field
pub mod Health
pub mod Identity
pub mod Iperf
pub mod Probe
pub mod Refresh
pub mod Runner
pub mod Runtime
pub mod Settings
pub mod Tools
pub mod Verdict
