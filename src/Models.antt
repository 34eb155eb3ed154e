-- ===== src/Models.antt =====
-- The package models: the errors of models/errors.go and the data that the components exchange.
pub mod Errors
pub mod Records
