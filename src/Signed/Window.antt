-- ===== src/Signed/Window.antt =====
-- driftscribe_lib/approvals.py: `new_approval_window`. `iso` stands for the text of a time in UTC
-- without its microseconds.
use driftscribe.Base.{ℕ, ◌+◌, ◌*◌, String, Bool, ◌&&◌, Result, ok, require, ◌>>◌, ltb, leb}
use driftscribe.Signed.Payload.{max_approval_ttl_minutes}

-- `new_approval_window`, with whether `now` has a time zone.
unfoldable pub new_approval_window : (ℕ → String) → Bool → ℕ → ℕ → Result (String × String)
new_approval_window iso aware now ttl_minutes = do
  require aware "now: must be timezone-aware"
  require (ltb 0 ttl_minutes && leb ttl_minutes max_approval_ttl_minutes) "ttl_minutes"
  ok (iso now, iso (now + ttl_minutes * 60000000))
