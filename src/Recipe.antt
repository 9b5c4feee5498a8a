-- ===== src/Recipe.antt =====
-- core/recipe.go
pub mod Types
pub mod Values
pub mod Dispatch
pub mod Setup
pub mod Order
pub mod Mounts
pub mod Tables
pub mod PostInstall
pub mod Install
pub mod Program
