-- ===== src/HistoryExchange/Providers.antt =====
-- How many offers a request takes, and which.
use xivlantern_dalamud.Prelude.{
  ℕ, ◌-◌, ◌≤◌, ◌≡◌, Bool, false, not, ◌&&◌, ◌||◌, Bool-cases, Option, none, some, Option-cases, inl,
  inr, List, [], ◌∷◌, ◌==◌, nat_eq, bytes_eq, leb, ltb, length, arith,
}
use xivlantern_dalamud.Bytes.{Bytes}
use xivlantern_dalamud.ChannelHistory.Snapshot.{snapshot_header}
use xivlantern_dalamud.HistoryExchange.{request_lifetime}
use xivlantern_dalamud.HistoryExchange.Requests.{
  Request, Room, new_request, is_running, request, send_again, tick_room, maximum, is_provider,
  take_offer, receive_offer,
}

-- No provider twice.
abbrev pub AreDistinct : List Bytes → Type 0
AreDistinct [] = Unit
AreDistinct (p ∷ providers) = (is_provider p providers ≡ false) × AreDistinct providers

-- A request was sent at most eight times, and took the offers of at most four providers, each once.
abbrev pub IsLimited : Option Request → Type 0
IsLimited none = Unit
IsLimited (some r) = (r.attempt ≤ 7) × (length r.providers ≤ 4) × AreDistinct r.providers

-- What can happen to the history of a room.
pub data Happening : Type 0 where
  requests : ℕ → Bool → Bytes → Happening
  ticks : ℕ → Happening
  -- own key, sender, owner of the address, topic, recipient, nonce, attempt, size
  offers : ℕ → Bytes → Bytes → Bytes → Bytes → Bytes → Bytes → ℕ → ℕ → Happening
  -- the caller turns the history on or off
  enables : Bool → Happening

module _ (Addr : Type 0) where
  unfoldable pub happen : Room → Happening → Room
  happen room (requests now force nonce) = (request {Addr = Addr} now force nonce room).1
  happen room (ticks now) = (tick_room {Addr = Addr} now room).1
  happen room (offers now own from owner frame_topic to nonce attempt size) =
      (receive_offer now own from owner frame_topic to nonce attempt size room).1
  happen room (enables on) = record room { history_enabled = on; history_request = none }

  unfoldable pub happen_all : Room → List Happening → Room
  unfolding happen
  happen_all room [] = room
  happen_all room (h ∷ more) = happen_all (happen room h) more

  request-IsLimited :
      (now : ℕ) (force : Bool) (nonce : Bytes) (room : Room)
      → IsLimited room.history_request
      → IsLimited (request {Addr = Addr} now force nonce room).1.history_request
  unfolding request new_request
  request-IsLimited now force nonce room l =
      elim (Bool-cases (not room.history_enabled || room.has_author)) [
        | inl off ↦ rw off l
        | inr on ↦ rw on (elim (Bool-cases (not force && is_running now room.history_request)) [
          | inl waits ↦ rw waits l
          | inr asks ↦ rw asks (omega arith)
        ])
      ]

  send_again-IsLimited :
      (now : ℕ) (room : Room) (r : Request)
      → IsLimited room.history_request
      → IsLimited (some r)
      → IsLimited (send_again {Addr = Addr} now room r).1.history_request
  unfolding send_again
  send_again-IsLimited now room r l mine =
      elim (Bool-cases (not room.history_enabled || (ltb (now - r.sent) 2000 || leb 7 r.attempt))) [
        | inl waits ↦ rw waits l
        | inr sends ↦ rw sends (ground arith, mine.1, mine.2)
      ]

  tick_room-IsLimited :
      (now : ℕ) (room : Room)
      → IsLimited room.history_request
      → IsLimited (tick_room {Addr = Addr} now room).1.history_request
  unfolding tick_room
  tick_room-IsLimited now room l = elim (Option-cases room.history_request) [
    | inl nothing ↦ rw (nothing, tick_room) l
    | inr (r, running) ↦
        rw (running, tick_room)
          (elim (Bool-cases (leb request_lifetime (now - r.started))) [
            | inl over ↦ rw over tt
            | inr goes_on ↦ rw goes_on (send_again-IsLimited now room r l (rw running at l))
          ])
  ]

  take_offer-IsLimited :
      (now : ℕ) (from nonce : Bytes) (room : Room) (r : Request)
      → IsLimited room.history_request
      → IsLimited (some r)
      → IsLimited (take_offer now from nonce room r).1.history_request
  unfolding take_offer
  take_offer-IsLimited now from nonce room r l mine =
      elim (Bool-cases (
        not (r.nonce == nonce)
        || (leb request_lifetime (now - r.started)
            || (leb 4 (length r.providers) || is_provider from r.providers)))) [
              | inl refused ↦ rw refused l
              | inr taken ↦ rw taken (mine.0, ground arith, (ground arith, mine.2))
            ]

  receive_offer-IsLimited :
      (now : ℕ) (own from owner frame_topic to nonce : Bytes) (attempt size : ℕ) (room : Room)
      → IsLimited room.history_request
      → IsLimited
          (receive_offer now own from owner frame_topic to nonce attempt size
            room).1.history_request
  unfolding receive_offer
  receive_offer-IsLimited now own from owner frame_topic to nonce attempt size room l =
      elim (Bool-cases
        (not (to == own) || (not (owner == from) || (ltb 7 attempt || ltb size snapshot_header)))) [
          | inl other ↦ rw other l
          | inr mine ↦
              rw mine
                (elim (Bool-cases (not room.history_enabled || not (room.topic == frame_topic))) [
                  | inl off ↦ rw off l
                  | inr on ↦ rw on (elim (Bool-cases (ltb (maximum room.is_sealed) size)) [
                    | inl big ↦ rw big l
                    | inr fits ↦ rw fits (elim (Option-cases room.history_request) [
                      | inl nothing ↦ rw nothing l
                      | inr (r, asked) ↦
                          rw asked (take_offer-IsLimited now from nonce room r l (rw asked at l))
                    ])
                  ])
                ])
        ]

  happen-IsLimited :
      (room : Room) (h : Happening)
      → IsLimited room.history_request
      → IsLimited (happen room h).history_request
  unfolding happen
  happen-IsLimited room (requests now force nonce) l = request-IsLimited now force nonce room l
  happen-IsLimited room (ticks now) l = tick_room-IsLimited now room l
  happen-IsLimited room (offers now own from owner frame_topic to nonce attempt size) l =
      receive_offer-IsLimited now own from owner frame_topic to nonce attempt size room l
  happen-IsLimited room (enables on) l = tt

  -- Whatever a room asks for, is offered and waits for, in whatever order and at whatever times, the request it
  -- has was sent at most eight times and took the offers of at most four providers, no provider twice, if this
  -- held at the start.
  pub happen_all-IsLimited :
      (room : Room) (happenings : List Happening)
      → IsLimited room.history_request
      → IsLimited (happen_all room happenings).history_request
  unfolding happen_all
  happen_all-IsLimited room [] l = l
  happen_all-IsLimited room (h ∷ more) l =
      happen_all-IsLimited (happen room h) more (happen-IsLimited room h l)
