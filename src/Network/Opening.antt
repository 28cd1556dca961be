-- ===== src/Network/Opening.antt =====
-- When the client of src/backend/network/Client.cpp runs, and what it tells the server first.
use networking_project_chat.Prelude.{
  ℕ, ◌+◌, ◌*◌, ◌%◌, ◌^◌, List, [], ◌∷◌, none, some, true, false, ◌≡◌, refl, ◌⊎◌, inl, inr, arith,
  Bool-cases, Option-cases,
}
use networking_project_chat.Network.Client.{
  Client, Lookup, failed, without_result, resolved, Sockets, Thread, client_thread, open_socket,
  start_thread, greeting,
}

-- The three bytes of a frequency, as the server reads them.
abbrev pub read_frequency : List ℕ → ℕ
read_frequency (type ∷ high ∷ middle ∷ low ∷ rest) = high * 2 ^ 16 + middle * 2 ^ 8 + low
read_frequency _ = 0

-- The server reads the frequency from the bytes that are sent first, cut to 24 bits.
pub read_frequency-greeting :
    (frequency : ℕ) (token : List ℕ)
    → read_frequency (greeting frequency token) ≡ frequency % 2 ^ 24
unfolding greeting
read_frequency-greeting frequency token = omega arith

lookup-cases :
    {Address : Type 0} (l : Lookup Address)
    → ((l ≡ failed) ⊎ (l ≡ without_result)) ⊎ ((a : Address) × (l ≡ resolved a))
lookup-cases failed = inl (inl refl)
lookup-cases without_result = inl (inr refl)
lookup-cases (resolved a) = inr (a, refl)

module _ {Address : Type 0} (os : Sockets Address) (to_string : ℕ → List ℕ) (c : Client) where
  abbrev found : Lookup Address
  found = os.getaddrinfo c.server_addr (to_string c.server_port)

  -- Each call that opens the connection has succeeded, on the socket.
  abbrev pub IsConnected : ℕ → Type 0
  IsConnected sock =
      (os.socket ≡ some sock)
      × (address : Address) × (found ≡ resolved address)
      × (os.connect sock address ≡ true)

  -- A thread runs on the connected socket, or none does, and a socket that was opened is open still.
  abbrev pub IsStarted : List Thread → List ℕ → Type 0
  IsStarted threads sockets =
      ((sock : ℕ) × (threads ≡ client_thread sock ∷ []) × (sockets ≡ sock ∷ []) × IsConnected sock)
      ⊎ ((threads ≡ [])
          × ((sock : ℕ) → ¬ IsConnected sock)
          × (((os.socket ≡ none) × (sockets ≡ []))
              ⊎ ((sock : ℕ) × (os.socket ≡ some sock) × (sockets ≡ sock ∷ []))))

  not_opened : (s : ℕ) → os.socket ≡ none → ¬ IsConnected s
  not_opened s closed (opened, address, known, connects) = cc

  not_found : (s : ℕ) → found ≡ failed → ¬ IsConnected s
  not_found s lost (opened, address, known, connects) = cc

  not-IsConnected :
      (s sock : ℕ) (address : Address)
      → os.socket ≡ some sock
      → found ≡ resolved address
      → os.connect sock address ≡ false
      → ¬ IsConnected s
  not-IsConnected s sock address opened known refused (opened', address', known', connects) = cc

  -- When `getaddrinfo` gives a result whenever it does not give a negative number, `startThread` returns.
  -- Either it has started `listener` on the socket, which is open, and the calls that open it, resolve the
  -- name and connect have all succeeded; or it has started no thread, these calls have not all succeeded,
  -- and no socket is open if that call has failed, and otherwise the one that it gave, which no thread uses.
  pub start_thread_lem :
      ¬ (found ≡ without_result)
      → (threads : List Thread) × (sockets : List ℕ) × (start_thread os to_string c
          ≡ some (threads, sockets))
        × IsStarted threads sockets
  unfolding start_thread open_socket
  start_thread_lem some_result = elim (Option-cases os.socket) [
    | inl closed ↦
        ([], [], rw closed refl, inr (refl, λ s k. not_opened s closed k, inl (closed, refl)))
    | inr (sock, opened) ↦ elim (lookup-cases found) [
      | inl (inl lost) ↦ (
        [],
        sock ∷ [],
        rw (opened, lost) refl,
        inr (refl, λ s k. not_found s lost k, inr (sock, opened, refl)),
      )
      | inl (inr absent) ↦ absurd (some_result absent)
      | inr (address, known) ↦ elim (Bool-cases (os.connect sock address)) [
        | inl connects ↦ (
          client_thread sock ∷ [],
          sock ∷ [],
          rw (opened, known, connects) refl,
          inl (sock, refl, refl, (opened, address, known, connects)),
        )
        | inr refused ↦ (
          [],
          sock ∷ [],
          rw (opened, known, refused) refl,
          inr (
            refl,
            λ s k. not-IsConnected s sock address opened known refused k,
            inr (sock, opened, refl),
          ),
        )
      ]
    ]
  ]
