-- ===== src/UpdateCheck/Order.antt =====
-- The order of versions, and the throttle of the check: src/infrastructure/update_check.rs.
use term_bridge.Prelude.{ℕ, ◌+◌, ◌<◌, ◌≡◌, true, false, none, some, arith}
use term_bridge.Text.{Text}
use term_bridge.UpdateCheck.{Version, above, UpdateCache, throttle_secs, start_with}

-- The order of versions is transitive.
pub above_trans : (a b c : Version) → above a b ≡ true → above b c ≡ true → above a c ≡ true
above_trans a b c ab bc = ground arith

-- A start that finds what an earlier start wrote less than 24 hours ago asks for nothing and
-- writes nothing.
pub start_with-throttles :
    (current : Text) (cache : UpdateCache) (now later : ℕ)
    → now < cache.checked_at_unix + throttle_secs
    → ((start_with current (some cache) now later).fetches ≡ false)
      × ((start_with current (some cache) now later).placeholder ≡ none)
unfolding start_with
start_with-throttles current cache now later recent = ground arith
