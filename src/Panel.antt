-- ===== src/Panel.antt =====
-- What the panels make of a payload: frontend/src/components/panels.
pub mod Gauge
pub mod Confirm
pub mod Toggle
pub mod Slider
pub mod Log
pub mod Registry
pub mod Logic
