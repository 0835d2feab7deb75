-- ===== src/Tests.antt =====
-- Runs of the model on concrete data, and each theorem at an input that meets its hypotheses.
mod Data
mod Jobs
mod Claims
mod Reissues
mod Stores
mod Api
mod Postgres
mod Registrations
mod Recovery
mod Tokens
mod Tables
mod Administration
