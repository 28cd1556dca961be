-- ===== src/Transport/Manager/Waiting.antt =====
-- The wait for a route before a message is sent (src/backend/transport/TransportManager.cpp).
use networking_project_chat.Routing.Route.{Route}
use networking_project_chat.Transport.Sender.{Sender}
