-- ===== src/Studio.antt =====
-- src/totem_studio_usb.c and src/totem_studio_extras.c: on a cable the keyboard prefers USB, so that
-- Studio can talk to it, and tells Studio the signal strength of its links.
pub mod Usb
pub mod Extras
mod Tests
