-- ===== src/RemoteFiles/Tests.antt =====
-- A run of the files that others offer, and its theorem at concrete inputs.
use xivlantern_dalamud.Prelude.{ℕ, false, none, List, [], ◌∷◌, arith, count_if}
use xivlantern_dalamud.Bytes.{Bytes}
use xivlantern_dalamud.ChannelHistory.{codes}
use xivlantern_dalamud.ChannelHistory.Tests.{replicate}
use xivlantern_dalamud.Delivery.{empty}
use xivlantern_dalamud.RemoteFiles.{Shared}
use xivlantern_dalamud.RemoteFiles.Limited.{IsUncrowded}
use xivlantern_dalamud.RemoteFiles.Run.{
  Happening, offers, offers_friend, withdraws, leaves, adds_own, happen_all, happen_all-IsUncrowded,
}

abbrev ann : Bytes
ann = replicate 32 1

abbrev node : Shared ℕ
node = record {
  rooms = (3, tt) ∷ [];
  friends = (ann, tt) ∷ [];
  blocked = [];
  blobs = [];
  file_jobs = [];
  next = 1;
  events = record {
    history = empty;
    channel = [];
    capacity = 8;
    history_turn = false;
    events_dropped = 0;
  };
}

abbrev some_happenings : List (Happening ℕ)
some_happenings =
    adds_own none none 10 (codes "mine.png")
    ∷ offers none 3 ann (replicate 32 7) 10 (codes "a.png")
    ∷ offers none 3 ann (replicate 32 7) 10 (codes "again.png")
    ∷ offers_friend ann (replicate 32 8) 10 (codes "b.png")
    ∷ withdraws 3 ann (replicate 32 7)
    ∷ leaves 3
    ∷ []

nothing_yet : IsUncrowded node.blobs
unfolding count_if
nothing_yet = record {
  remote = omega arith;
  of_peer = λ peer. omega arith;
  once = λ room peer hash. omega arith;
}

happen_all-IsUncrowded_example : IsUncrowded (happen_all node some_happenings).blobs
happen_all-IsUncrowded_example = happen_all-IsUncrowded node some_happenings nothing_yet
