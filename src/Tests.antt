-- ===== src/Tests.antt =====
-- Concrete inputs for the theorems, and the cases of tests/ that have one.
mod Sample
mod Engine
mod Links
mod Query
mod Catalog
mod Events
mod Config
mod Handlers
mod Files
mod Db
mod Migrations
mod Server
mod Sqlite
mod System
mod Journey
mod Main
mod Admin
mod Templating
