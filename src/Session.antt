-- ===== src/Session.antt =====
-- Online sessions: gameservice/src/services/OnlineSessionService.ts over the types of
-- gameservice/src/types/online.ts.
pub mod State
pub mod Transitions
pub mod Machine
pub mod Validity
pub mod Store
pub mod Service
pub mod Handlers
pub mod Stored
pub mod Accepted
pub mod Timeouts
pub mod Creation
pub mod Chatted
pub mod Changes
pub mod History
pub mod Finality
pub mod PieRule
pub mod Forfeits
pub mod Chat
pub mod Lost
pub mod Overlap
pub mod Invites
pub mod Invitations
pub mod InviteSteps
pub mod InviteAccept
pub mod InviteCalls
pub mod InviteSent
pub mod Rematch
pub mod Rematches
pub mod Sweep
pub mod Swept
pub mod LobbyExamples
pub mod Examples
