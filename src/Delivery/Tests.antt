-- ===== src/Delivery/Tests.antt =====
-- Runs of node/history/delivery.rs, and its theorems at concrete inputs.
use xivlantern_dalamud.Prelude.{
  ℕ, ◌+◌, ◌≤◌, ◌≡◌, refl, true, false, Option, some, List, [], ◌∷◌, ◌++◌, arith, length, any,
  retain, count_if, All, nat_eq, bytes_beq,
}
use xivlantern_dalamud.HashMap
use xivlantern_dalamud.Event.{Event, channel_record, RoomHandle}
use xivlantern_dalamud.Delivery.{
  Delivery, empty, max_records, register, is_record, is_cleared, channel_of, has_encoded,
  is_pending, is_full, make_space, enqueue, push_to, push, pop, is_by, is_empty, block_author,
}
use xivlantern_dalamud.Delivery.Queue.{IsQueue, Distinct}
use xivlantern_dalamud.Delivery.Valid.{IsValid}
use xivlantern_dalamud.Delivery.Run.{
  Call, register_room, push_event, pop_event, step, run, IsChannelCall, run-empty-IsValid,
  run_bounded,
}
use xivlantern_dalamud.Delivery.Latest.{last_n, records, enqueue_all, records-enqueue_all}
use xivlantern_dalamud.Delivery.Fair.{pops, pops_fair}

abbrev pub line : ℕ → ℕ → Event
line room n = channel_record room (7 ∷ []) (n ∷ []) true

-- Two rooms, a repeated line, and a second line for the first room.
abbrev script : List Call
script =
    register_room 1
    ∷ register_room 2
    ∷ push_event (line 1 1)
    ∷ push_event (line 1 1)
    ∷ push_event (line 1 2)
    ∷ push_event (line 2 3)
    ∷ []

script-IsChannelCall : All IsChannelCall script
unfolding channel_of
script-IsChannelCall = (tt, (tt, ((1, refl), ((1, refl), ((1, refl), ((2, refl), tt))))))

abbrev pub state : Delivery
state = record {
  active = (1, tt) ∷ (2, tt) ∷ [];
  rooms = (1, line 1 1 ∷ line 1 2 ∷ []) ∷ (2, line 2 3 ∷ []) ∷ [];
  ready = 1 ∷ 2 ∷ [];
}

runs : run empty script ≡ some state
unfolding run step push push_to register enqueue is_cleared is_pending has_encoded any bytes_beq
    is_full make_space count_if is_record channel_of HashMap.insert HashMap.get HashMap.contains_key
runs = refl

-- The state that the script ends in is valid.
pub state-IsValid : IsValid state
state-IsValid = run-empty-IsValid script state script-IsChannelCall runs

-- The rooms take turns, and the repeated line comes once.
serves_in_turn :
    run state (pop_event ∷ [])
    ≡ some
        (record state { rooms = (1, line 1 2 ∷ []) ∷ (2, line 2 3 ∷ []) ∷ []; ready = 2 ∷ 1 ∷ [] })
unfolding run step pop HashMap.get HashMap.insert
serves_in_turn = refl

run_bounded_example :
    (d : Delivery) × (run empty script ≡ some d)
    × ((room : RoomHandle) (queue : List Event)
        → HashMap.get d.rooms room ≡ some queue
        → IsQueue room queue × (length queue ≤ max_records + 1))
run_bounded_example = run_bounded script script-IsChannelCall

few : count_if is_record (line 1 1 ∷ []) ≤ max_records
unfolding count_if is_record
few = omega arith

apart : Distinct (line 1 1 ∷ line 1 2 ∷ line 1 3 ∷ [])
unfolding is_pending any has_encoded bytes_beq
apart = (refl, (refl, (refl, tt)))

lines-are_records : All (λ event. is_record event ≡ true) (line 1 2 ∷ line 1 3 ∷ [])
unfolding is_record
lines-are_records = (refl, (refl, tt))

records-enqueue_all_example :
    records (enqueue_all (line 1 1 ∷ []) (line 1 2 ∷ line 1 3 ∷ []))
    ≡ last_n max_records (records (line 1 1 ∷ []) ++ line 1 2 ∷ line 1 3 ∷ [])
records-enqueue_all_example =
    records-enqueue_all (line 1 1 ∷ []) (line 1 2 ∷ line 1 3 ∷ []) few lines-are_records apart

second_queue : HashMap.get state.rooms 2 ≡ some (line 2 3 ∷ [])
unfolding HashMap.get
second_queue = refl

pops_fair_example :
    (d' : Delivery) × (pops 1 state ≡ some d')
    × ((r : Delivery × Option Event) × (pop d' ≡ some r) × (r.1 ≡ some (line 2 3)))
pops_fair_example = pops_fair state (1 ∷ []) 2 [] (line 2 3) [] state-IsValid refl second_queue

repeats : push state (line 1 1) ≡ some (state, false)
unfolding push push_to enqueue is_cleared is_pending has_encoded any bytes_beq channel_of
    HashMap.insert HashMap.get HashMap.contains_key
repeats = refl

abbrev mixed : Delivery
mixed = record state {
  rooms =
      (1, channel_record 1 (7 ∷ []) (1 ∷ []) true ∷ channel_record 1 (8 ∷ []) (2 ∷ []) true ∷ [])
      ∷ (2, line 2 3 ∷ [])
      ∷ [];
}

abbrev mixed_script : List Call
mixed_script =
    register_room 1
    ∷ register_room 2
    ∷ push_event (line 1 1)
    ∷ push_event (channel_record 1 (8 ∷ []) (2 ∷ []) true)
    ∷ push_event (line 2 3)
    ∷ []

mixed-IsChannelCall : All IsChannelCall mixed_script
unfolding channel_of
mixed-IsChannelCall = (tt, (tt, ((1, refl), ((1, refl), ((2, refl), tt)))))

runs_mixed : run empty mixed_script ≡ some mixed
unfolding run step push push_to register enqueue is_cleared is_pending has_encoded any bytes_beq
    is_full make_space count_if is_record channel_of HashMap.insert HashMap.get HashMap.contains_key
runs_mixed = refl

mixed-IsValid : IsValid mixed
mixed-IsValid = run-empty-IsValid mixed_script mixed mixed-IsChannelCall runs_mixed

blocks_one :
    HashMap.get (block_author mixed (7 ∷ [])).rooms 1
    ≡ some (channel_record 1 (8 ∷ []) (2 ∷ []) true ∷ [])
unfolding block_author is_by is_empty retain bytes_beq HashMap.get HashMap.map_values HashMap.retain
blocks_one = refl

line-channel : channel_of (line 1 9) ≡ some 1
unfolding channel_of
line-channel = refl
