-- ===== src/Auth/Guards.antt =====
-- What the guards let through (agent/internal/agent/agent.go).
use infracheck_appliance.Base.{String, true, false, ◌≡◌, ◌≢◌, ◌↔◌, arith, eq_iff}
use infracheck_appliance.Base.Result.{Response}
use infracheck_appliance.Auth.{
  Request, Gate, admin_token, token_of, valid_token, unauthorized, require_read, maybe_protect_read,
  maybe_protect_metrics, require_admin,
}

-- A request is valid for a token exactly if the token is not empty and is the one it carries.
pub valid_token_iff :
    (r : Request) (expected : String)
    → (valid_token r expected ≡ true) ↔ ((expected ≢ "") × (token_of r ≡ expected))
unfolding valid_token
valid_token_iff r expected =
    ground (arith, eq_iff expected "", eq_iff (token_of r) "", eq_iff (token_of r) expected)

module _ {A : Type 0} where
  -- A request that the admin guard lets through is let through by the guards of reads and metrics.
  pub require_admin-reads :
      (a : Gate) (next next' : Request → Response A) (r : Request)
      → require_admin a next r ≢ unauthorized
      → (maybe_protect_read a next' r ≡ next' r) × (maybe_protect_metrics a next' r ≡ next' r)
  unfolding require_admin maybe_protect_read maybe_protect_metrics require_read
  require_admin-reads a next next' r passed = ground arith

  -- Where no token is set, neither the admin token in the database or the file nor the read token,
  -- and reads are not public, the guards of reads and of changes refuse every request.
  pub require_admin-unset :
      (a : Gate) (next : Request → Response A) (r : Request)
      → admin_token a ≡ ""
      → a.security.read_token ≡ ""
      → a.security.allow_public_reads ≡ false
      → (require_admin a next r ≡ unauthorized) × (maybe_protect_read a next r ≡ unauthorized)
  unfolding require_admin valid_token maybe_protect_read require_read
  require_admin-unset a next r unset unread private =
      ground (arith, eq_iff (admin_token a) "", eq_iff a.security.read_token "")
