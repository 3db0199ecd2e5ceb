-- ===== src/Rotation.antt =====
-- The rotation of items between lifecycle states: the states (domain/rotation_state.py), the
-- timer wheel (domain/rotation_timer_wheel.py) and the sweep (application/rotation_engine.py).
pub mod State
pub mod Wheel
pub mod Deadline
pub mod Engine
