-- ===== src/Notify.antt =====
-- api/internal/notification: rules, the suppressor, the rate limiter and the engine.
pub mod Types
pub mod Suppressor
pub mod Rule
pub mod Engine
pub mod Delivery
pub mod Secrets
