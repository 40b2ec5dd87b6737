-- ===== src/CloudflareKv/Lifetime.antt =====
-- The lifetime that packages/cloudflare-kv/src/kv-expiration.ts gives a key.
use tslock.Prelude.{ℕ, ◌+◌, ◌*◌, ◌≤◌, ◌<◌, ◌≡◌, ◌⊎◌, arith}
use tslock.CloudflareKv.{kv_expiration_ttl_seconds}

-- A key lives 60 seconds at least and, counted from `now`, past the end of its lock's term; it
-- outlives that end, where it lives longer than 60 seconds, by one second at most.
pub kv_expiration_ttl_seconds-outlives :
    (until now : ℕ)
    → let ttl = kv_expiration_ttl_seconds until now in
      (60 ≤ ttl) × (until < now + ttl * 1000) × ((ttl ≡ 60) ⊎ (now + ttl * 1000 ≤ until + 1000))
unfolding kv_expiration_ttl_seconds
kv_expiration_ttl_seconds-outlives until now = (ground arith, ground arith, ground arith)
