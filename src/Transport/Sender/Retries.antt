-- ===== src/Transport/Sender/Retries.antt =====
-- How often a fragment is sent, and when the sender gives up.
use native.Mathlib.Nat.{add-zero, zero-add}
use networking_project_chat.Prelude.{
  ℕ, zero, suc, ◌+◌, ◌<◌, ◌≤◌, ◌≡◌, refl, ap, ◌∙◌, List, [], ◌∷◌, some, true, false, ◌==◌, length,
  arith, if◌then◌else◌, replicate, u8,
}
use networking_project_chat.Prelude.Assoc.{find}
use networking_project_chat.Packet.{Header, build_header, add_header_to_payload}
use networking_project_chat.Routing.Route.{Route}
use networking_project_chat.Routing.State.{Node, pause_protocol, resume_protocol}
use networking_project_chat.Transport.Receiver.{send, ack_header}
use networking_project_chat.Transport.Sender.{
  Sender, handle_ack, handle_acks, attempts_from, send_with_retry,
}
use networking_project_chat.Transport.Sender.Acks.{handle_ack-ack_header}

-- When what arrives is never taken for the acknowledgement, all attempts that are left are made, and
-- the pause of the routing protocol ends.
attempts_from_unheard :
    (left k : ℕ) (arrivals : ℕ → List (List ℕ)) (packet : List ℕ) (s : Sender) (n : Node)
    → s.ack_received ≡ false
    → ((j : ℕ)
        → handle_acks (arrivals j) s n ≡ some (record { effects = []; sender = s; node = n }))
    → attempts_from left k arrivals packet s n
      ≡ some
          (record { effects = replicate left (send packet); sender = s; node = resume_protocol n })
unfolding attempts_from
attempts_from_unheard zero k arrivals packet s n e unheard = refl
attempts_from_unheard (suc left) k arrivals packet s n e unheard =
    ground (arith, unheard k, attempts_from_unheard left (k + 1) arrivals packet s n e unheard)

shift : (k j : ℕ) → k + 1 + j ≡ k + suc j
shift k j = omega arith

-- When the acknowledgement arrives in wait `k + j`, the fragment has been sent `j + 1` times.
attempts_from_ack :
    (left k j : ℕ) (arrivals : ℕ → List (List ℕ)) (packet answer : List ℕ) (s : Sender) (n : Node)
    → j < left
    → s.ack_received ≡ false
    → ((i : ℕ) → i < k + j → arrivals i ≡ [])
    → arrivals (k + j) ≡ answer ∷ []
    → handle_ack answer s n
      ≡ some (record { effects = []; sender = record s { ack_received = true }; node = n })
    → attempts_from left k arrivals packet s n
      ≡ some (record {
        effects = replicate (suc j) (send packet);
        sender = record s { ack_received = true };
        node = n;
      })
unfolding attempts_from handle_acks
attempts_from_ack zero k j arrivals packet answer s n h e quiet comes taken = absurd (omega arith)
attempts_from_ack (suc left) k zero arrivals packet answer s n h e quiet comes taken =
    ground (arith, ap arrivals (add-zero k), comes, taken)
attempts_from_ack (suc left) k (suc j) arrivals packet answer s n h e quiet comes taken = ground (
  arith,
  quiet k,
  attempts_from_ack left (k + 1) j arrivals packet answer s n (omega arith) e
      (λ i p. quiet i (omega arith)) (ap arrivals (shift k j) ∙ comes) taken,
)

-- The node while a fragment is being sent: its routing protocol is paused.
abbrev pub paused : Node → Node
paused n = if n.pause_flag then n else pause_protocol n

-- The packet of a fragment on its way over a route.
abbrev pub packet_of : ℕ → Route → Header → List ℕ → List ℕ
packet_of me r h payload =
    add_header_to_payload
      (record h {
        source_address = me;
        next_hop_address = r.next_hop;
        payload_length = u8 (length payload);
      })
      payload

module _ (arrivals : ℕ → List (List ℕ)) (h : Header) (payload : List ℕ) (s : Sender) (n : Node)
    (me : ℕ) (r : Route) (file : n.addressing.addr_file ≡ some me)
    (unicast : (h.dest_address == 0) ≡ false)
    (route : find h.dest_address n.routing_table ≡ some r) where
  -- `sendWithRetry` with a route to the destination runs its loop of attempts.
  send_with_retry-attempts_from :
      send_with_retry arrivals h payload s n
      ≡ attempts_from 7 0 arrivals
          (packet_of me r h payload)
          (record s { ack_received = false })
          (paused n)
  unfolding send_with_retry pause_protocol
  send_with_retry-attempts_from = ground arith

  -- At a node with an address, and with a route to the destination, which is one node: when nothing
  -- arrives, a fragment is sent seven times; then the sender gives up and the routing protocol goes
  -- on.
  pub send_with_retry_silence :
      ((j : ℕ) → arrivals j ≡ [])
      → send_with_retry arrivals h payload s n
        ≡ some (record {
          effects = replicate 7 (send (packet_of me r h payload));
          sender = record s { ack_received = false };
          node = resume_protocol (paused n);
        })
  send_with_retry_silence quiet =
      send_with_retry-attempts_from
      ∙ attempts_from_unheard 7 0 arrivals _ (record s { ack_received = false }) (paused n) refl
          (λ j. unfold handle_acks in rw (quiet j))

  -- At a node with an address from 1 to 7, and with a route to the destination, which is one node,
  -- for a message number below 8 and a fragment number below 2048: when nothing arrives before wait
  -- `j`, one of the seven from 0, and in it the destination's acknowledgement alone, the fragment
  -- has been sent `j + 1` times, it counts as acknowledged, and the routing protocol stays paused.
  pub send_with_retry-ack_header :
      (j other hop : ℕ)
      → j < 7
      → 0 < me
      → me < 8
      → s.current_msg_id < 8
      → s.current_fragment_id < 2048
      → ((i : ℕ) → i < j → arrivals i ≡ [])
      → arrivals j
        ≡ build_header (ack_header other hop s.current_msg_id s.current_fragment_id me) ∷ []
      → send_with_retry arrivals h payload s n
        ≡ some (record {
          effects = replicate (suc j) (send (packet_of me r h payload));
          sender = record s { ack_received = true };
          node = paused n;
        })
  send_with_retry-ack_header j other hop soon pos me_fits id_fits frag_fits quiet comes =
      send_with_retry-attempts_from
      ∙ attempts_from_ack 7 0 j arrivals _ _ (record s { ack_received = false }) (paused n) soon
          refl (λ i p. quiet i (omega arith)) (ap arrivals (zero-add j) ∙ comes) taken
    where
      waiting : Sender
      waiting = record s { ack_received = false }

      taken :
          handle_ack
            (build_header (ack_header other hop s.current_msg_id s.current_fragment_id me))
            waiting
            (paused n)
          ≡ some
              (record { effects = []; sender = record s { ack_received = true }; node = paused n })
      taken =
          handle_ack-ack_header other hop s.current_msg_id s.current_fragment_id me waiting
            (paused n) pos me_fits (unfold pause_protocol in ground arith)
          ∙ ground arith

  -- At a node with an address from 1 to 7, and with a route to the destination, which is one node,
  -- for a message number of 8 or more, as from the ninth message on: when the destination's
  -- acknowledgement alone arrives in every wait, it is never taken for one, so that the fragment is
  -- sent seven times and the sender gives up.
  pub send_with_retry_ninth :
      (other hop : ℕ)
      → 0 < me
      → me < 8
      → 8 ≤ s.current_msg_id
      → ((j : ℕ)
          → arrivals j
            ≡ build_header (ack_header other hop s.current_msg_id s.current_fragment_id me) ∷ [])
      → send_with_retry arrivals h payload s n
        ≡ some (record {
          effects = replicate 7 (send (packet_of me r h payload));
          sender = record s { ack_received = false };
          node = resume_protocol (paused n);
        })
  send_with_retry_ninth other hop pos me_fits late comes =
      send_with_retry-attempts_from
      ∙ attempts_from_unheard 7 0 arrivals _ waiting (paused n) refl
          (λ j. unfold handle_acks in rw (comes j) (ground (arith, refused)))
    where
      waiting : Sender
      waiting = record s { ack_received = false }

      refused :
          handle_ack
            (build_header (ack_header other hop s.current_msg_id s.current_fragment_id me))
            waiting
            (paused n)
          ≡ some (record { effects = []; sender = waiting; node = paused n })
      refused =
          handle_ack-ack_header other hop s.current_msg_id s.current_fragment_id me waiting
            (paused n) pos me_fits (unfold pause_protocol in ground arith)
          ∙ ground arith
