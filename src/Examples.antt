-- ===== src/Examples.antt =====
-- The theorems applied at concrete inputs, a module for each part of the program.
mod Auth
mod Scope
mod Grid
mod Store
mod Capi
mod Health
mod Profile
mod Fleet
mod Collectors
mod Events
mod Pages
