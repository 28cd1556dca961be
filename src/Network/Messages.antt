-- ===== src/Network/Messages.antt =====
-- src/utils/MessageType.h and Message.h.
use networking_project_chat.Prelude.{ℕ, List, []}

pub data MessageType : Type 0 where
  free busy data_frame sending done_sending data_short end hello token_accepted token_rejected :
      MessageType

pub record Message : Type 0 where
  pub type : MessageType
  pub content : List ℕ

-- The constructor that takes a type alone.
abbrev pub of_type : MessageType → Message
of_type type = record { type = type; content = [] }
