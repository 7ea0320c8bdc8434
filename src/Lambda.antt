-- ===== src/Lambda.antt =====
-- services/dispatch-notify-lambda: the notification and the audit record of an assignment.
pub mod Defs
pub mod Audit
pub mod Effects
