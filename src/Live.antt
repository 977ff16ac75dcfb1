-- ===== src/Live.antt =====
-- src/live: the live history of a site, what is displayed of it, and the requests for it.
pub mod Frame
pub mod History
pub mod Display
pub mod Requests
pub mod Tests
