-- ===== src/Windows/Library.antt =====
-- What the windows (src/frontend/Chatroom) use of Qt and of the standard library.
use networking_project_chat.Prelude.{ℕ, List, Bool}
use networking_project_chat.MessageQueue.{Message}

-- The conversions of `QString`, and `QDateTime::currentDateTime().toString("[hh:mm]")`.
pub record Qt : Type 0 where
  pub to_local8_bit : List ℕ → List ℕ
  pub from_local8_bit : List ℕ → List ℕ
  pub from_latin1 : List ℕ → List ℕ
  pub from_std_string : List ℕ → List ℕ
  pub number : ℕ → List ℕ
  pub current_time : List ℕ

-- `std::to_string`, `<` on `std::string`, and `std::sort` with a comparison.
pub record Std : Type 0 where
  pub to_string : ℕ → List ℕ
  pub less : List ℕ → List ℕ → Bool
  pub sort : (Message → Message → Bool) → List Message → List Message
