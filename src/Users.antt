-- ===== src/Users.antt =====
-- The users service: users/src/repositories/users.repository.ts and chat.repository.ts over the tables
-- of users/src/database/users.sql.
pub mod Tables
pub mod Friends
pub mod Chat
pub mod Calls
pub mod Edits
pub mod Steps
pub mod Relations
pub mod Friendships
pub mod Conversations
pub mod Messages
pub mod Examples
