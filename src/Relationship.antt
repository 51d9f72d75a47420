-- ===== src/Relationship.antt =====
-- What a user may do by how well the bot knows the user (model/qqbot/relationship.go).
mod Policy
mod Grows
mod Tests
