-- ===== src/Device.antt =====
-- The devices behind the transports: src/device/JubiterHidDevice.cpp and JubiterBLEDevice.cpp.
pub mod Hid
pub mod Ble
mod Tests
