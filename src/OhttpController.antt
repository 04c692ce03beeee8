-- ===== src/OhttpController.antt =====
-- tee_gateway/controllers/ohttp_controller.py, and `_session_cost_calculator` of
-- tee_gateway/__main__.py, which settles what the controller records.
pub mod Context
pub mod Headers
pub mod Streaming
pub mod Subrequest
pub mod Handler
mod Privacy
mod Answers
mod Tests
