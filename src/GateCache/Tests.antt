-- ===== src/GateCache/Tests.antt =====
-- The cache at concrete notifications.
use mcp_assist_memory.Prelude.{
  ℕ, codes, true, false, none, some, [], ◌∷◌, ◌≡◌, refl, arith, text_eq,
}
use mcp_assist_memory.GateCache.{
  GateCache, get, apply_notification, partition, version_of, invalidate, lookup,
}
use mcp_assist_memory.GateCache.Laws.{
  IsCache, IsAfter, notified, after, apply_notification-get, after-IsAfter,
}

abbrev cache : GateCache ℕ
cache = record {
  ttl = 30;
  entries = record { namespace = codes "n"; stored_at = 5; version = 2; value = 7 } ∷ [];
  version = 2;
  listener_alive = true;
}

cache-IsCache : IsCache cache
cache-IsCache = record { bounded = (omega arith, tt) }

accepted : (apply_notification (codes "3:other") cache).0 ≡ true
unfolding apply_notification partition version_of invalidate
accepted = refl

refused : (apply_notification (codes "2:n") cache).0 ≡ false
unfolding apply_notification partition version_of
refused = refl

hit : (get 20 (codes "n") cache).0 ≡ some 7
unfolding get text_eq lookup
hit = refl

apply_notification-get_example :
    (get 20 (codes "n") (apply_notification (codes "3:other") cache).1).0 ≡ none
apply_notification-get_example =
    apply_notification-get (codes "3:other") cache 20 (codes "n") cache-IsCache accepted

after-IsAfter_example : IsAfter cache (after (notified (codes "3:other")) cache)
after-IsAfter_example = after-IsAfter (notified (codes "3:other")) cache cache-IsCache
