-- ===== src/Webhooks.antt =====
-- backend/app/webhooks: what stands between GitHub's events and the queue.
pub mod Ratelimit
