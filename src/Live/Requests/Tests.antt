-- ===== src/Live/Requests/Tests.antt =====
-- A concrete tracker: the theorem on src/live/siteRequestTracker.ts applied to it.
use mistr.Live.Requests.Tracker.{SiteRequestTracker}

abbrev third_request : SiteRequestTracker
third_request = record { current_request = 2 }
