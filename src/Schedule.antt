-- ===== src/Schedule.antt =====
-- internal/schedule: the text of a schedule, and the next time that it names.
pub mod Parser
pub mod Next
