-- ===== src/Handlers.antt =====
-- internal/interfaces/http/handlers/: the HTTP handlers. A handler gets what gin has taken from the
-- request, and answers with a status code and a body; the texts of the field `details` are left out.
pub mod Ads
pub mod Commands
pub mod Creating
pub mod Outcomes
pub mod Bodies
use home_work_ad_processor_g.Prelude.{
  ℕ, ◌||◌, Option, none, some, String, if◌then◌else◌, ℤ, pos, leb_ℤ, ltb_ℤ, atoi_checked,
}

-- `c.JSON` of a result, or of an `ErrorResponse`.
pub data Response {ℓ} (A : Type ℓ) : Type ℓ where
  replied : ℕ → A → Response A
  problem : ℕ → String → Response A

abbrev pub status_code {ℓ} : {A : Type ℓ} → Response A → ℕ
status_code (replied code body) = code
status_code (problem code error) = code

abbrev pub status_ok : ℕ
status_ok = 200

abbrev pub status_created : ℕ
status_created = 201

abbrev pub status_bad_request : ℕ
status_bad_request = 400

abbrev pub status_not_found : ℕ
status_not_found = 404

abbrev pub status_internal_server_error : ℕ
status_internal_server_error = 500

-- `c.DefaultQuery`.
abbrev pub default_query : Option String → String → String
default_query none default = default
default_query (some text) default = text

-- The guard of both handlers with a number in the query: from 1 to 100, or nothing.
abbrev pub in_range : Option ℤ → Option ℤ
in_range none = none
in_range (some n) = if leb_ℤ n (pos 0) || ltb_ℤ (pos 100) n then none else some n

unfoldable pub bounded_query : Option String → String → Option ℤ
unfolding atoi_checked
bounded_query text default = in_range (atoi_checked (default_query text default))
