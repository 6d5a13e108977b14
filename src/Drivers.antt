-- ===== src/Drivers.antt =====
-- drivers/: the keyboard and the real-time clock.
pub mod Keyboard
pub mod Rtc
