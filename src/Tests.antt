-- ===== src/Tests.antt =====
-- Runs of the model on concrete data, and the theorems at concrete inputs.
mod Scripted
mod Disks
mod Volumes
mod Recipes
mod Tables
mod Programs
mod Configs
mod Steps
mod Groups
